-- ===== src/Plugins/Requests/StorageKeys.antt =====
-- The keys under which plugins store in `localStorage`: those of one plugin are apart from those of
-- any other.
use y5fgb.Common.{
  starts_with, refl, ◌≡◌, all, [], true, ◌∷◌, is_lower, Text, ℕ, codes, arith, is_digit, ◌++◌,
  false, Bool-cases, sym, inl, ap, append_assoc, ◌∙◌, inr,
}
use y5fgb.Plugins.Pattern.{is_id_char, id_pattern, matches_class}
use y5fgb.Plugins.Bridge.{plugin_storage_prefix, plugin_storage_key}

-- Texts of the class of `idPattern` hold no colon.
is_id_char_colon : (c : ℕ) → is_id_char c ≡ true → ¬ (c ≡ b':')
unfolding is_id_char is_lower is_digit
is_id_char_colon c h e = ground arith

-- Two ids of that class, each followed by a colon, are equal if one such text starts the other.
starts_with_delimited :
    (p q s : Text)
    → all is_id_char p ≡ true
    → all is_id_char q ≡ true
    → starts_with (p ++ codes ":") (q ++ b':' ∷ s) ≡ true
    → p ≡ q
unfolding all starts_with
starts_with_delimited [] [] s hp hq h = refl
starts_with_delimited [] (d ∷ q) s hp hq h = absurd (ground (arith, is_id_char_colon d))
starts_with_delimited (c ∷ p) [] s hp hq h = absurd (ground (arith, is_id_char_colon c))
starts_with_delimited (c ∷ p) (d ∷ q) s hp hq h =
    let first : c ≡ d = ground arith in
    rw (first, starts_with_delimited p q s (ground arith) (ground arith) (ground arith)) refl

starts_with-append_both : (r p s : Text) → starts_with (r ++ p) (r ++ s) ≡ starts_with p s
unfolding starts_with
starts_with-append_both [] p s = refl
starts_with-append_both (c ∷ r) p s = ground (arith, starts_with-append_both r p s)

id_pattern_chars : (p : Text) → id_pattern p ≡ true → all is_id_char p ≡ true
unfolding id_pattern matches_class
id_pattern_chars p h = ground arith

plugin_storage_key_shape :
    (q key : Text) → plugin_storage_key q key ≡ codes "plugin-local:" ++ (q ++ b':' ∷ key)
unfolding plugin_storage_prefix plugin_storage_key
plugin_storage_key_shape q key =
    ap (λ t. codes "plugin-local:" ++ t) (append_assoc q (codes ":") key)

-- The storage keys of another plugin do not start with the prefix of this one, where both ids are of
-- the form that `idPattern` asks for.
pub plugin_storage_key_disjoint :
    (p q key : Text)
    → id_pattern p ≡ true
    → id_pattern q ≡ true
    → ¬ (p ≡ q)
    → starts_with (plugin_storage_prefix p) (plugin_storage_key q key) ≡ false
unfolding plugin_storage_prefix
plugin_storage_key_disjoint p q key hp hq different =
    elim (Bool-cases (starts_with (plugin_storage_prefix p) (plugin_storage_key q key))) [
      | inl starts ↦
          let cut : starts_with (p ++ codes ":") (q ++ b':' ∷ key) ≡ true =
            sym (starts_with-append_both (codes "plugin-local:") (p ++ codes ":") (q ++ b':' ∷ key))
            ∙ ap (starts_with (plugin_storage_prefix p)) (sym (plugin_storage_key_shape q key))
            ∙ starts in
          absurd (
            different
              (starts_with_delimited p q key (id_pattern_chars p hp) (id_pattern_chars q hq) cut))
      | inr differs ↦ differs
    ]
