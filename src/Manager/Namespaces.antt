-- ===== src/Manager/Namespaces.antt =====
-- The namespaces that the manager watches.
use kubebird.Prelude.{
  String, ◌<>◌, true, ◌||◌, ◌≡◌, refl, sym, ap, ◌∙◌, List, [], ◌∷◌, ◌++◌, All, ◌=?◌, eq_iff,
  Bool-cases, inl, inr, arith,
}
use kubebird.Prelude.Text.{contains, split_on}
use kubebird.Prelude.Text.Numbers.{one-append}
use kubebird.Prelude.Text.Words.{
  is_word, split_on-word, split_on-word_then, trim_space-word, contains-append,
}
use kubebird.Manager.{add_namespaces, setup_cache_namespaces}

-- The names with a comma between each two.
abbrev pub joined : String → List String → String
joined name [] = name
joined name (next ∷ names) = name <> ("," <> joined next names)

-- The name has neither a comma nor white space.
abbrev pub IsName : String → Type 0
IsName name = is_word b',' name ≡ true

split_on-joined :
    (name : String) (names : List String)
    → IsName name
    → All IsName names
    → split_on b',' (joined name names) ≡ name ∷ names
split_on-joined name [] h hs = split_on-word b',' name h
split_on-joined name (next ∷ names) h hs =
    ap (λ s. split_on b',' (name <> s)) (one-append _ (joined next names))
    ∙ split_on-word_then b',' _ name (joined next names) refl h
    ∙ ap (λ ns. name ∷ ns) (split_on-joined next names hs.0 hs.1)

add_namespaces-contains :
    (keys names : List String) (x : String)
    → All IsName names
    → contains (add_namespaces keys names) x ≡ (contains keys x || contains names x)
unfolding add_namespaces contains
add_namespaces-contains keys [] x h = ground arith
add_namespaces-contains keys (name ∷ names) x h =
    let trimmed = trim_space-word b',' name h.0 in
    let fresh = add_namespaces-contains (keys ++ name ∷ []) names x h.1 in
    let known = add_namespaces-contains keys names x h.1 in
    let appended = contains-append keys (name ∷ []) x in
    elim (Bool-cases (contains keys name)) [
      | inl k ↦ elim (Bool-cases (name =? x)) [
        | inl e ↦
            let px = ap (contains keys) (sym ((eq_iff name x).0 e)) ∙ k in
            rw (trimmed, k) (ground (arith, known, px, e))
        | inr e ↦ rw (trimmed, k) (ground (arith, known, e))
      ]
      | inr k ↦ rw (trimmed, k) (ground (arith, fresh, appended))
    ]

-- Where WATCH_NAMESPACE holds one name or more, with a comma between each two, and no name has a
-- comma or white space, the cache is configured for a namespace just when it is one of the names.
pub setup_cache_namespaces-joined :
    (name : String) (names : List String)
    → IsName name
    → All IsName names
    → (x : String)
    → contains (setup_cache_namespaces (joined name names)) x ≡ contains (name ∷ names) x
unfolding setup_cache_namespaces contains
setup_cache_namespaces-joined name names h hs x =
    ap (λ ns. contains (add_namespaces [] ns) x) (split_on-joined name names h hs)
    ∙ add_namespaces-contains [] (name ∷ names) x (h, hs)
