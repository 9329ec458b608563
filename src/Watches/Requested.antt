-- ===== src/Watches/Requested.antt =====
-- Which Instances are reconciled when a Secret changes.
use kubebird.Prelude.{
  String, Bool, true, false, ◌&&◌, ◌≡◌, refl, ap, ◌∙◌, some, List, [], ◌∷◌, map, ◌=?◌, ◌⊎◌, eq_iff,
  eq_refl, keep_if, Bool-cases, and-both, inl, inr, arith,
}
use kubebird.Prelude.Text.{contains}
use kubebird.Naming.{sysdba_secret_ref_name}
use kubebird.Kube.Calls.{Reply, done}
use kubebird.Watches.{Item, Request, request, secret_ref_index, find_instances_for_secret}

-- Listing by a value of the index answers the stored objects of the namespace that have it.
abbrev pub Serves : (String → String → Reply (List Item)) → List Item → Type 0
Serves list stored =
    (namespace value : String)
    → list namespace value
      ≡ done (
          keep_if
            (λ (x : Item).
              (x.namespace =? namespace) && contains (secret_ref_index (some x.instance)) value)
            stored)

abbrev pub IsIn : {A : Type 0} → A → List A → Type 0
IsIn a [] = ⊥
IsIn a (x ∷ xs) = (x ≡ a) ⊎ IsIn a xs

-- The Instance reads its SYSDBA password from the Secret of that namespace and name.
abbrev pub Reads : Item → String → String → Type 0
Reads x namespace name = (x.namespace ≡ namespace) × (sysdba_secret_ref_name x.instance ≡ name)

kept :
    (p : Item → Bool) (y : Item) (ys : List Item)
    → p y ≡ true
    → keep_if p (y ∷ ys) ≡ y ∷ keep_if p ys
kept p y ys h = rw (h, keep_if) refl

left :
    (p : Item → Bool) (y : Item) (ys : List Item) → p y ≡ false → keep_if p (y ∷ ys) ≡ keep_if p ys
left p y ys h = rw (h, keep_if) refl

kept-requested :
    (p : Item → Bool) (x : Item) (stored : List Item)
    → IsIn x stored
    → p x ≡ true
    → IsIn (request x) (map request (keep_if p stored))
kept-requested p x [] m h = elim m [ ]
kept-requested p x (y ∷ stored) (inl e) h = rw (kept p y stored (ap p e ∙ h)) (inl (ap request e))
kept-requested p x (y ∷ stored) (inr m) h = elim (Bool-cases (p y)) [
  | inl t ↦ rw (kept p y stored t) (inr (kept-requested p x stored m h))
  | inr f ↦ rw (left p y stored f) (kept-requested p x stored m h)
]

WasKept : (Item → Bool) → Request → List Item → Type 0
WasKept p q stored = (x : Item) × (IsIn x stored × ((p x ≡ true) × (request x ≡ q)))

requested-kept :
    (p : Item → Bool) (q : Request) (stored : List Item)
    → IsIn q (map request (keep_if p stored))
    → WasKept p q stored
unfolding WasKept
requested-kept p q [] m = elim m [ ]
requested-kept p q (y ∷ stored) m = elim (Bool-cases (p y)) [
  | inl t ↦ elim (rw (kept p y stored t) at m) [
    | inl e ↦ (y, (inl refl, (t, e)))
    | inr m' ↦ let (x, k) = requested-kept p q stored m' in (x, (inr k.0, k.1))
  ]
  | inr f ↦
      let (x, k) = requested-kept p q stored (rw (left p y stored f) at m) in (x, (inr k.0, k.1))
]

abbrev chosen : String → String → Item → Bool
chosen namespace name x =
    (x.namespace =? namespace) && contains (secret_ref_index (some x.instance)) name

chosen-Reads :
    (x : Item) (namespace name : String) → Reads x namespace name → chosen namespace name x ≡ true
unfolding contains secret_ref_index
chosen-Reads x namespace name r = rw (r.0, r.1, eq_refl namespace, eq_refl name) refl

reads :
    (x : Item) (namespace name : String) → chosen namespace name x ≡ true → Reads x namespace name
unfolding contains secret_ref_index
reads x namespace name h =
    let (here, there) = and-both (x.namespace =? namespace) _ h in
    (
      (eq_iff x.namespace namespace).0 here,
      (eq_iff (sysdba_secret_ref_name x.instance) name).0 (ground (arith, there)),
    )

-- Where the list answers every stored Instance of the namespace that the index gives the value, and
-- no other: a change of a Secret requests each stored Instance of its namespace that reads its SYSDBA
-- password from it, and only such Instances.
pub find_instances_for_secret-Reads :
    (list : String → String → Reply (List Item)) (stored : List Item) (namespace name : String)
    → Serves list stored
    → ((x : Item)
        → IsIn x stored
        → Reads x namespace name
        → IsIn (request x) (find_instances_for_secret list namespace name))
      × ((q : Request)
          → IsIn q (find_instances_for_secret list namespace name)
          → (x : Item) × (IsIn x stored × (Reads x namespace name × (request x ≡ q))))
unfolding find_instances_for_secret secret_ref_index contains WasKept
find_instances_for_secret-Reads list stored namespace name serves = (
  λ x m r.
      rw (serves namespace name)
        (kept-requested (chosen namespace name) x stored m (chosen-Reads x namespace name r)),
  λ q m.
      let (x, k) =
        requested-kept (chosen namespace name) q stored (rw (serves namespace name) at m) in
      (x, (k.0, (reads x namespace name k.1.0, k.1.1))),
)
