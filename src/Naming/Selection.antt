-- ===== src/Naming/Selection.antt =====
-- The labels of an Instance's objects, and the selector of its server's pod.
use kubebird.Prelude.{
  String, Bool, true, false, ◌&&◌, ◌≡◌, refl, ap, ◌∙◌, [], ◌∷◌, ◌=?◌, eq_refl, eq_iff, Bool-cases,
  inl, inr, arith,
}
use kubebird.Api.{Instance}
use kubebird.Naming.{
  Labels, label, set_label, labels_for_instance, firebird_pod_selector, with_firebird_version_label,
  firebird_version_label_key, instance_label_key,
}

-- A label selector of Kubernetes with matchLabels: each of its labels is on the object.
unfoldable pub selects : Labels → Labels → Bool
unfolding label
selects [] labels = true
selects ((k, v) ∷ wanted) labels = (label k labels =? v) && selects wanted labels

pub label-set_label :
    (key value : String) (labels : Labels) → label key (set_label key value labels) ≡ value
unfolding label set_label
label-set_label key value [] = rw (eq_refl key) refl
label-set_label key value ((k, v) ∷ labels) = elim (Bool-cases (k =? key)) [
  | inl h ↦ ground (arith, h, eq_refl key)
  | inr h ↦ ground (arith, h, label-set_label key value labels)
]

pub label-set_label_other :
    (key other value : String) (labels : Labels)
    → (key =? other) ≡ false
    → label other (set_label key value labels) ≡ label other labels
unfolding label set_label
label-set_label_other key other value [] h = rw h refl
label-set_label_other key other value ((k, v) ∷ labels) h =
    let rest = label-set_label_other key other value labels h in
    elim (Bool-cases (k =? key)) [
      | inl e ↦
          let same = ap (λ x. x =? other) ((eq_iff k key).0 e) ∙ h in ground (arith, e, h, same)
      | inr e ↦ ground (arith, e, rest)
    ]

-- The version label is no other label of the program's.
label-with_firebird_version_label :
    (i : Instance) (other : String) (labels : Labels)
    → (firebird_version_label_key =? other) ≡ false
    → label other (with_firebird_version_label i labels) ≡ label other labels
unfolding with_firebird_version_label
label-with_firebird_version_label i other labels h =
    elim (Bool-cases (i.status.firebird_version =? "")) [
      | inl e ↦ rw e refl
      | inr e ↦ rw e (
          label-set_label_other firebird_version_label_key other i.status.firebird_version labels h)
    ]

component-ne :
    (i : Instance)
    → label "app.kubernetes.io/component"
        (with_firebird_version_label i (labels_for_instance i.name))
      ≡ ""
unfolding label labels_for_instance
component-ne i =
    label-with_firebird_version_label i "app.kubernetes.io/component" (labels_for_instance i.name)
      refl

-- The selector of the Service picks the server's pod, whose labels the StatefulSet's template has.
pub firebird_pod_selector-selects :
    (name : String) → selects (firebird_pod_selector name) (firebird_pod_selector name) ≡ true
unfolding selects label firebird_pod_selector labels_for_instance set_label
firebird_pod_selector-selects name = rw (eq_refl name) refl

last_false : (a b c d : Bool) → (a && (b && (c && (d && false)))) ≡ false
last_false true true true true = refl
last_false true true true false = refl
last_false true true false d = refl
last_false true false c d = refl
last_false false b c d = refl

-- The labels of an Instance's other objects lack what its selector wants.
pub labels_for_instance-selects :
    (i : Instance)
    → selects
        (firebird_pod_selector i.name)
        (with_firebird_version_label i (labels_for_instance i.name))
      ≡ false
unfolding selects firebird_pod_selector
labels_for_instance-selects i =
    let at : String → String =
      λ key. label key (with_firebird_version_label i (labels_for_instance i.name)) in
    rw (component-ne i) (
      last_false (at "app.kubernetes.io/name" =? "firebird")
        (at "app.kubernetes.io/instance" =? i.name)
        (at "app.kubernetes.io/managed-by" =? "kubebird-controller")
        (at instance_label_key =? i.name))
