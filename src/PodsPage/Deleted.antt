-- ===== src/PodsPage/Deleted.antt =====
-- Which pods the page deletes.
use Prim.Native.Char.{code}
use text.Mathlib.TextLemmas.{nil-append, cons-append, append_assoc}
use pertisk_kube_app.Base.{
  String, ◌≡◌, refl, ap, ap₂, ◌∙◌, subst, Bool, true, false, ◌&&◌, inl, inr, some, List, [], ◌∷◌,
  ◌++◌, map, eqb, ◌==◌, arith, eq_iff, eq_refl, Bool-cases,
}
use pertisk_kube_app.Base.Lists.{All, any}
use pertisk_kube_app.Base.Text.{◌<>◌, member, split}
use pertisk_kube_app.Pods.Row.{Pod, key_of}
use pertisk_kube_app.Pods.Keys.{NoSlash, slash-append}
use pertisk_kube_app.Pods.Sync.{keys}
use pertisk_kube_app.PodsPage.Rows.{Collation, no_texts}
use pertisk_kube_app.PodsPage.Page.{
  PodsPage, ConfirmDelete, Request, dialog_label, request_of_parts, request_of, delete_selected,
  start_delete, Event, delete_clicked, confirm_clicked, step, run,
}
use pertisk_kube_app.PodsPage.Listed.{IsListed}
use pertisk_kube_app.PodsPage.Dialog.{is_quiet, is_view, run-SameDialog, run_view, run-append}

split-whole : (s : String) → NoSlash s → split 0x2F s ≡ s ∷ []
unfolding split
split-whole String.[] h = refl
split-whole (String.◌∷◌ c s) (h, hs) =
    let other : eqb (code c) 0x2F ≡ false = ground (arith, h) in
    rw (other, split) (rw (split-whole s hs) refl)

split-parts : (a b : String) → NoSlash a → NoSlash b → split 0x2F (a <> ("/" <> b)) ≡ a ∷ b ∷ []
unfolding split
split-parts String.[] b ha hb =
    ap (split 0x2F) (nil-append _ ∙ slash-append b) ∙ rw (split-whole b hb) refl
split-parts (String.◌∷◌ c a) b (h, ha) hb =
    let other : eqb (code c) 0x2F ≡ false = ground (arith, h) in
    ap (split 0x2F) (cons-append c a _) ∙ rw (other, split) (rw (split-parts a b ha hb) refl)

-- Names without a slash.
abbrev pub Slashless : Pod → Type 0
Slashless p = NoSlash p.namespace × NoSlash p.name

-- The key of a pod is read back as its namespace and its name, where neither holds a slash.
pub request_of-key_of :
    (p : Pod)
    → Slashless p
    → request_of (key_of p) ≡ record { namespace = p.namespace; name = p.name }
unfolding request_of
request_of-key_of p (hn, hm) =
    ap (λ s. request_of_parts (split 0x2F s)) (append_assoc p.namespace "/" p.name)
    ∙ ap request_of_parts (split-parts p.namespace p.name hn hm)

-- A request of a pod.
abbrev pub names : Request → Pod → Bool
names r p = p.namespace == r.namespace && p.name == r.name

request-listed :
    (key : String) (pods : List Pod)
    → All Slashless pods
    → member key (keys pods) ≡ true
    → any (names (request_of key)) pods ≡ true
request-listed key [] h m = cc
request-listed key (p ∷ pods) (h, hs) m = elim (Bool-cases (key_of p == key)) [
  | inl e ↦
      subst (λ k. any (names (request_of k)) (p ∷ pods) ≡ true) ((eq_iff (key_of p) key).0 e)
        (ap (λ r. any (names r) (p ∷ pods)) (request_of-key_of p h)
          ∙ ground (arith, eq_refl p.namespace, eq_refl p.name))
  | inr e ↦ ground (arith, request-listed key pods hs (ground arith))
]

requests-listed :
    (ks : List String) (pods : List Pod)
    → All Slashless pods
    → ((k : String) → member k ks ≡ true → member k (keys pods) ≡ true)
    → All (λ r. any (names r) pods ≡ true) (map request_of ks)
requests-listed [] pods h w = tt
requests-listed (k ∷ ks) pods h w = (
  request-listed k pods h (w k (ground (arith, eq_refl k))),
  requests-listed ks pods h (λ j m. w j (ground arith)),
)

asked : PodsPage → PodsPage
asked p = record p {
  confirm = some (record { keys = p.selected_rows; label = dialog_label p.selected_rows });
}

delete_selected-some :
    (p : PodsPage) → no_texts p.selected_rows ≡ false → delete_selected p ≡ asked p
unfolding delete_selected asked
delete_selected-some p h = rw h refl

sent-start_delete :
    (p : PodsPage) (a : ConfirmDelete)
    → p.confirm ≡ some a
    → p.deleting ≡ false
    → (start_delete p).sent ≡ p.sent ++ map request_of a.keys
unfolding start_delete
sent-start_delete p a e idle = rw (e, start_delete) (rw (idle, start_delete) refl)

asked_and_confirmed :
    (c : Collation) (during : List Event) (p : PodsPage)
    → All (λ e. is_quiet e ≡ true) during
    → p.deleting ≡ false
    → no_texts p.selected_rows ≡ false
    → (run c (delete_clicked ∷ (during ++ confirm_clicked ∷ [])) p).sent
      ≡ p.sent ++ map request_of p.selected_rows
unfolding run step asked
asked_and_confirmed c during p quiet idle some_rows =
    let kept = run-SameDialog c during (asked p) quiet in
    ap (λ q. (run c (during ++ confirm_clicked ∷ []) q).sent) (delete_selected-some p some_rows)
    ∙ ap (λ q. q.sent) (run-append c during (confirm_clicked ∷ []) (asked p))
    ∙ sent-start_delete (run c during (asked p))
        (record { keys = p.selected_rows; label = dialog_label p.selected_rows }) kept.confirm
        (kept.deleting ∙ idle)
    ∙ ap (λ rs. rs ++ map request_of p.selected_rows) kept.sent

-- On a page with a sound selection, in whose pods no name and no namespace holds a slash, with some row
-- selected and no deletion running: however the filters and the order of the page change after that, a
-- click on Delete and its confirmation send one request for each selected row, shown or not, and no
-- other, and each request names a pod that was listed when Delete was clicked. Between the two clicks
-- anything may arrive and be clicked, other than the dialog's Cancel and its backdrop, another Delete
-- (of the page or of the panel), and the end of a deletion.
pub deletes_selected :
    (c : Collation) (before during : List Event) (p : PodsPage)
    → All (λ e. is_view e ≡ true) before
    → All (λ e. is_quiet e ≡ true) during
    → p.deleting ≡ false
    → no_texts p.selected_rows ≡ false
    → IsListed p
    → All Slashless p.pods
    → ((run c (before ++ (delete_clicked ∷ (during ++ confirm_clicked ∷ []))) p).sent
        ≡ p.sent ++ map request_of p.selected_rows)
      × All (λ r. any (names r) p.pods ≡ true) (map request_of p.selected_rows)
deletes_selected c before during p view quiet idle some_rows h slashless =
    let (rows, still, sent) = run_view c before p view in
    let q = run c before p in
    (
      ap (λ s. s.sent) (run-append c before (delete_clicked ∷ (during ++ confirm_clicked ∷ [])) p)
          ∙ asked_and_confirmed c during q quiet (still ∙ idle) (ap no_texts rows ∙ some_rows)
          ∙ ap₂ (λ xs ks. xs ++ map request_of ks) sent rows,
      requests-listed p.selected_rows p.pods slashless h.selected_listed,
    )
