-- ===== src/Pods/Keys.antt =====
-- `${namespace}/${name}` tells pods apart: a namespace holds no slash.
use Prim.Native.Char.{Char, code}
use text.Mathlib.TextLemmas.{
  nil-append, cons-append, append_assoc, tail-eq_of_cons-eq, head-eq_of_cons-eq,
}
use mathlib.Core.Path.{ap₂}
use pertisk_kube_app.Base.{
  String, ◌≡◌, ◌≢◌, refl, sym, ap, inl, inr, Bool-cases, ◌∙◌, List, [], ◌∷◌, arith, eq_iff, ◌==◌,
}
use pertisk_kube_app.Base.Lists.{All, any, update_first, update_all}
use pertisk_kube_app.Base.Text.{member, ◌<>◌}
use pertisk_kube_app.Pods.Row.{Pod, key_of, same_pod}
use pertisk_kube_app.Pods.Sync.{keys}

abbrev pub NoSlash : String → Type 0
NoSlash String.[] = Unit
NoSlash (String.◌∷◌ c s) = (code c ≢ b'/') × NoSlash s

abbrev pub slash : Char
slash = "/"

pub slash-append : (x : String) → ("/" <> x) ≡ String.◌∷◌ slash x
slash-append x = cons-append slash "" x ∙ ap (String.◌∷◌ slash) (nil-append x)

split-slash :
    (a b x y : String)
    → NoSlash a
    → NoSlash b
    → (a <> ("/" <> x)) ≡ (b <> ("/" <> y))
    → (a ≡ b) × (x ≡ y)
split-slash String.[] String.[] x y ha hb e =
    let e' : String.◌∷◌ slash x ≡ String.◌∷◌ slash y =
      sym (slash-append x) ∙ (sym (nil-append _) ∙ (e ∙ (nil-append _ ∙ slash-append y))) in
    (refl, tail-eq_of_cons-eq e')
split-slash String.[] (String.◌∷◌ d b) x y ha hb e =
    let e' : String.◌∷◌ slash x ≡ String.◌∷◌ d (b <> ("/" <> y)) =
      sym (slash-append x) ∙ (sym (nil-append _) ∙ (e ∙ cons-append d b _)) in
    absurd (hb.0 (sym (ap code (head-eq_of_cons-eq e'))))
split-slash (String.◌∷◌ c a) String.[] x y ha hb e =
    let e' : String.◌∷◌ c (a <> ("/" <> x)) ≡ String.◌∷◌ slash y =
      sym (cons-append c a _) ∙ (e ∙ (nil-append _ ∙ slash-append y)) in
    absurd (ha.0 (ap code (head-eq_of_cons-eq e')))
split-slash (String.◌∷◌ c a) (String.◌∷◌ d b) x y ha hb e =
    let e' : String.◌∷◌ c (a <> ("/" <> x)) ≡ String.◌∷◌ d (b <> ("/" <> y)) =
      sym (cons-append c a _) ∙ (e ∙ cons-append d b _) in
    let ih = split-slash a b x y ha.1 hb.1 (tail-eq_of_cons-eq e') in
    (ap₂ String.◌∷◌ (head-eq_of_cons-eq e') ih.0, ih.1)

-- The namespace of a row holds no slash.
abbrev pub IsClean : Pod → Type 0
IsClean p = NoSlash p.namespace

-- Rows of one key are rows of one pod.
pub same_pod-eq-key : (p q : Pod) → IsClean p → IsClean q → same_pod p q ≡ (key_of q == key_of p)
same_pod-eq-key p q hp hq = elim (Bool-cases (same_pod p q)) [
  | inl same ↦
      ground
        (arith, eq_iff q.name p.name, eq_iff q.namespace p.namespace, eq_iff (key_of q) (key_of p))
  | inr other ↦ ground (
    arith,
    eq_iff q.name p.name,
    eq_iff q.namespace p.namespace,
    eq_iff (key_of q) (key_of p),
    split,
  )
]
  where
    split : key_of q ≡ key_of p → (q.namespace ≡ p.namespace) × (q.name ≡ p.name)
    split e =
        split-slash q.namespace p.namespace q.name p.name hq hp
          (sym (append_assoc q.namespace "/" q.name) ∙ (e ∙ append_assoc p.namespace "/" p.name))

pub any-same_pod :
    (p : Pod) (rows : List Pod)
    → IsClean p
    → All IsClean rows
    → any (same_pod p) rows ≡ member (key_of p) (keys rows)
any-same_pod p [] hp h = refl
any-same_pod p (q ∷ rows) hp (hq, h) = rw (same_pod-eq-key p q hp hq, any-same_pod p rows hp h) refl

module _ (p : Pod) (f : Pod → Pod) (same_key : (q : Pod) → key_of (f q) ≡ key_of p)
    (hp : IsClean p) where
  pub keys-update_all :
      (rows : List Pod) → All IsClean rows → keys (update_all (same_pod p) f rows) ≡ keys rows
  keys-update_all [] h = refl
  keys-update_all (q ∷ rows) (hq, h) = ground (
    arith,
    same_key q,
    keys-update_all rows h,
    same_pod-eq-key p q hp hq,
    eq_iff (key_of q) (key_of p),
  )

  pub keys-update_first :
      (rows : List Pod) → All IsClean rows → keys (update_first (same_pod p) f rows) ≡ keys rows
  keys-update_first [] h = refl
  keys-update_first (q ∷ rows) (hq, h) = ground (
    arith,
    same_key q,
    keys-update_first rows h,
    same_pod-eq-key p q hp hq,
    eq_iff (key_of q) (key_of p),
  )
