-- ===== src/Plugins/Manifest/Conforms.antt =====
-- What `validatePluginDescriptor` accepts.
use y5fgb.Plugins.Capability.{is_capability_allowed_in_v1}
use y5fgb.Plugins.Pattern.{id_pattern, semver_pattern}
use y5fgb.Plugins.Manifest.{
  Manifest, RawDescriptor, ok, allowed_hooks, normalize_manifest, is_escaping, check_lists,
  check_manifest, validate_plugin_descriptor,
}
use y5fgb.Common.{
  [], some, ◌↔◌, ◌≡◌, List, find, none, trim, has_text, false, not, All, true, ◌≤◌, Text, arith,
  is_empty, length, Bool, codes, ◌∷◌, refl, inr, inl, ap, Option-cases, ltb, eq_text_iff,
  ltb-eq-false, eq_text, subst,
}

-- The policy, without the order in which the code checks it.
pub record Conforms (d : RawDescriptor) (m : Manifest) : Type 0 where
  pub shape : normalize_manifest d.manifest ≡ some m
  pub api_version : m.api_version ≡ codes "v1"
  pub id : id_pattern m.id ≡ true
  pub version : semver_pattern m.version ≡ true
  pub entrypoint : is_escaping m.entrypoint ≡ false
  pub code : is_empty (trim d.entrypoint_code) ≡ false
  pub code_size : length d.entrypoint_code ≤ 512000
  pub permissions : All (λ c. is_capability_allowed_in_v1 c ≡ true) m.requested_permissions
  pub hooks : All (λ h. has_text h allowed_hooks ≡ true) m.declared_hooks

pub find-none-All :
    (p : Text → Bool) (xs : List Text)
    → (find (λ x. not (p x)) xs ≡ none) ↔ All (λ x. p x ≡ true) xs
unfolding find
find-none-All p [] = (λ _. tt, λ _. refl)
find-none-All p (x ∷ xs) = (
  λ h. (ground arith, (find-none-All p xs).0 (ground arith)),
  λ h. ground (arith, (find-none-All p xs).1 h.1),
)

check_lists_iff :
    (m n : Manifest)
    → (check_lists m ≡ ok n) ↔ (
        (m ≡ n)
        × All (λ c. is_capability_allowed_in_v1 c ≡ true) m.requested_permissions
        × All (λ h. has_text h allowed_hooks ≡ true) m.declared_hooks)
unfolding check_lists
check_lists_iff m n = (
  λ e.
      elim (Option-cases
        (find (λ c. not (is_capability_allowed_in_v1 c)) m.requested_permissions)) [
          | inl p ↦
              elim (Option-cases (find (λ h. not (has_text h allowed_hooks)) m.declared_hooks)) [
                | inl q ↦ (
                  ground arith,
                  (find-none-All is_capability_allowed_in_v1 m.requested_permissions).0 p,
                  (find-none-All (λ h. has_text h allowed_hooks) m.declared_hooks).0 q,
                )
                | inr (hook, q) ↦ absurd (ground arith)
              ]
          | inr (capability, p) ↦ absurd (ground arith)
        ],
  λ (same, ps, hs).
      rw ((find-none-All is_capability_allowed_in_v1 m.requested_permissions).1 ps, check_lists)
        (rw ((find-none-All (λ h. has_text h allowed_hooks) m.declared_hooks).1 hs, check_lists)
          (ap ok same)),
)

check_manifest_iff :
    (code : Text) (m n : Manifest)
    → (check_manifest code m ≡ ok n) ↔ (
        (eq_text m.api_version (codes "v1") ≡ true)
        × (id_pattern m.id ≡ true)
        × (semver_pattern m.version ≡ true)
        × (is_escaping m.entrypoint ≡ false)
        × (is_empty (trim code) ≡ false)
        × (ltb 512000 (length code) ≡ false)
        × (check_lists m ≡ ok n))
unfolding check_manifest
check_manifest_iff code m n = ground arith

validate_sound :
    (d : RawDescriptor) (m : Manifest) → validate_plugin_descriptor d ≡ ok m → Conforms d m
unfolding validate_plugin_descriptor
validate_sound d m e = elim (Option-cases (normalize_manifest d.manifest)) [
  | inl missing ↦ absurd (ground arith)
  | inr (n, shape) ↦
      let (a, b, c, f, g, h, k) =
        (check_manifest_iff d.entrypoint_code n m).0
          (rw (shape, validate_plugin_descriptor) at e) in
      let (same, permissions, hooks) = (check_lists_iff n m).0 k in
      subst (Conforms d) same (record {
        shape = shape;
        api_version = (eq_text_iff n.api_version (codes "v1")).0 a;
        id = b;
        version = c;
        entrypoint = f;
        code = g;
        code_size = ground arith;
        permissions = permissions;
        hooks = hooks;
      })
]

validate_complete :
    (d : RawDescriptor) (m : Manifest) → Conforms d m → validate_plugin_descriptor d ≡ ok m
unfolding validate_plugin_descriptor
validate_complete d m c =
    rw (c.shape, validate_plugin_descriptor)
      ((check_manifest_iff d.entrypoint_code m m).1 (
        (eq_text_iff m.api_version (codes "v1")).1 c.api_version,
        c.id,
        c.version,
        c.entrypoint,
        c.code,
        ltb-eq-false (length d.entrypoint_code) 512000 c.code_size,
        (check_lists_iff m m).1 (refl, c.permissions, c.hooks),
      ))

-- `validatePluginDescriptor` accepts a descriptor, with the normalised manifest, exactly when the
-- manifest has the required shape and the whole policy holds.
pub validate_plugin_descriptor_iff :
    (d : RawDescriptor) (m : Manifest) → (validate_plugin_descriptor d ≡ ok m) ↔ Conforms d m
validate_plugin_descriptor_iff d m = (validate_sound d m, validate_complete d m)
