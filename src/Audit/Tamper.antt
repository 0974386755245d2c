-- ===== src/Audit/Tamper.antt =====
-- What the verification finds in a log whose rows were edited or deleted (chain.go).
use mathlib.Core.List.{append_assoc}
use nexa_panel.Prelude.{
  ℕ, zero, suc, ◌≤◌, ◌<◌, ◌≡◌, ◌≢◌, refl, subst, ap, sym, ◌∙◌, false, Option, none, some, List, [],
  ◌∷◌, ◌++◌, Text, arith, Bool-cases, inl, inr, is_empty, text_eq, text_eq_refl, text_eq_sound,
  length, Ascending-weaken, All, count_where,
}
use nexa_panel.Audit.Encoding.{encode_fields, encode_fields_injective}
use nexa_panel.Audit.Chain.{
  Outside, EventRow, Db, chain_hash, chain_fields, chain_genesis, last_row, actor_field,
}
use nexa_panel.Audit.Verify.{
  Walk, stop, check_row, check_rows, continue, verify, broken, start_walk, is_hashed, max_id,
  max_id_of, Reason, contents_changed, link_broken,
}
use nexa_panel.Audit.Walk.{IdsBetween, verdict_of, check_rows-append}
use nexa_panel.Audit.Intact.{Linked, IsOld, Chained, end_hash, last_row-skip}
use nexa_panel.Audit.Verified.{clean_result, verify_walk, prefix_walked}

-- The rows of a table in which one row is replaced by another under the same id.
ids-replaced :
    (lo hi : ℕ) (rows after : List EventRow) (row row' : EventRow)
    → row'.id ≡ row.id
    → IdsBetween lo hi (rows ++ (row ∷ after))
    → IdsBetween lo hi (rows ++ (row' ∷ after))
ids-replaced lo hi [] after row row' e (h, a) =
    (omega (arith, e), subst (λ k. IdsBetween (suc k) hi after) (sym e) a)
ids-replaced lo hi (r ∷ rows) after row row' e (h, a) =
    (h, ids-replaced (suc r.id) hi rows after row row' e a)

ids-removed :
    (lo hi : ℕ) (rows after : List EventRow) (row : EventRow)
    → IdsBetween lo hi (rows ++ (row ∷ after))
    → IdsBetween lo hi (rows ++ after)
ids-removed lo hi [] after row (h, a) =
    Ascending-weaken (λ (r : EventRow). r.id) (suc row.id) lo hi after (omega arith) a
ids-removed lo hi (r ∷ rows) after row (h, a) = (h, ids-removed (suc r.id) hi rows after row a)

max_id-behind :
    (rows after : List EventRow) (row : EventRow)
    → max_id (rows ++ (row ∷ after)) ≡ max_id (row ∷ after)
unfolding max_id
max_id-behind rows after row = ap max_id_of (last_row-skip rows row after)

max_id-replaced :
    (rows after : List EventRow) (row row' : EventRow)
    → row'.id ≡ row.id
    → max_id (rows ++ (row' ∷ after)) ≡ max_id (rows ++ (row ∷ after))
unfolding max_id last_row
max_id-replaced rows [] row row' e =
    max_id-behind rows [] row' ∙ e ∙ sym (max_id-behind rows [] row)
max_id-replaced rows (r ∷ after) row row' e =
    max_id-behind rows (r ∷ after) row' ∙ sym (max_id-behind rows (r ∷ after) row)

max_id-removed :
    (rows after : List EventRow) (row next : EventRow)
    → max_id (rows ++ (next ∷ after)) ≡ max_id (rows ++ (row ∷ next ∷ after))
unfolding max_id last_row
max_id-removed rows after row next =
    max_id-behind rows after next ∙ sym (max_id-behind rows (next ∷ after) row)

Linked-split :
    (o : Outside) (previous : Text) (rows after : List EventRow)
    → Linked o previous (rows ++ after)
    → Linked o previous rows × Linked o (end_hash previous rows) after
Linked-split o previous [] after l = (tt, l)
Linked-split o previous (row ∷ rows) after (p, h, n, l) =
    let (front, back) = Linked-split o row.hash rows after l in ((p, h, n, front), back)

hashed-somewhere :
    (rows after : List EventRow) (row : EventRow)
    → is_empty row.hash ≡ false
    → 0 < count_where is_hashed (rows ++ (row ∷ after))
hashed-somewhere [] after row n = rw n (omega arith)
hashed-somewhere (r ∷ rows) after row n = omega (arith, hashed-somewhere rows after row n)

-- A table whose walk stops at a row behind linked ones.
module _ (o : Outside) (watermark : ℕ) (old before rest : List EventRow) (bad : EventRow) where
  stopped_at :
      (hi : ℕ) (db : Db) (reason : Reason)
      → db.watermark ≡ some watermark
      → db.rows ≡ (old ++ before) ++ (bad ∷ rest)
      → IdsBetween 1 hi db.rows
      → watermark ≤ max_id db.rows
      → is_empty bad.hash ≡ false
      → All (IsOld watermark) old
      → Linked o (chain_genesis o watermark) before
      → ((w : Walk)
          → w.previous ≡ end_hash (chain_genesis o watermark) before
          → check_row o watermark bad w ≡ stop (broken w.result bad.id reason))
      → verify o db ≡ some (broken (clean_result (length before) (length old)) bad.id reason)
  unfolding verdict_of check_rows continue
  stopped_at hi db reason marked rows ids top hashed old_rows linked stops =
      let (w, went, p, r) = prefix_walked o watermark old before old_rows linked in
      let some_hash : 0 < count_where is_hashed db.rows =
        subst (λ t. 0 < count_where is_hashed t) (sym rows)
          (hashed-somewhere (old ++ before) rest bad hashed) in
      let walked : check_rows o watermark db.rows (start_walk o watermark)
          ≡ stop (broken w.result bad.id reason) =
        ap (λ t. check_rows o watermark t (start_walk o watermark)) rows
        ∙ check_rows-append o watermark (old ++ before) (bad ∷ rest) (start_walk o watermark)
        ∙ ap (λ t. continue t (check_rows o watermark (bad ∷ rest))) went
        ∙ ap (λ t. continue t (check_rows o watermark rest)) (stops w p) in
      verify_walk o watermark hi db marked ids top (inr some_hash)
      ∙ ap verdict_of walked
      ∙ ap (λ t. some (broken t bad.id reason)) r

-- The recorded contents of two rows, as the digest sees them.
pub record SameContents (o : Outside) (row row' : EventRow) : Type 0 where
  pub time : o.format_time row.occurred_at ≡ o.format_time row'.occurred_at
  pub actor : row.actor_user_id ≡ row'.actor_user_id
  pub action : row.action ≡ row'.action
  pub subject : row.subject ≡ row'.subject
  pub remote_address : row.remote_address ≡ row'.remote_address
  pub metadata : row.metadata ≡ row'.metadata

abbrev field_at : ℕ → List Text → Text
field_at n [] = []
field_at zero (field ∷ fields) = field
field_at (suc n) (field ∷ fields) = field_at n fields

abbrev actor_of : Text → Option Text
actor_of (c ∷ c' ∷ actor) = some actor
actor_of _ = none

actor_read : (actor : Option Text) → actor_of (actor_field actor) ≡ actor
unfolding actor_field
actor_read none = refl
actor_read (some actor) = refl

module _ (o : Outside) (previous : Text) (row row' : EventRow) where
  chain_fields-SameContents :
      chain_fields o previous row ≡ chain_fields o previous row' → SameContents o row row'
  unfolding chain_fields
  chain_fields-SameContents e = record {
    time = ap (field_at 1) e;
    actor =
        sym (actor_read row.actor_user_id)
        ∙ ap (λ t. actor_of (field_at 2 t)) e
        ∙ actor_read row'.actor_user_id;
    action = ap (field_at 3) e;
    subject = ap (field_at 4) e;
    remote_address = ap (field_at 5) e;
    metadata = ap (field_at 6) e;
  }

  -- The digest takes two different inputs to two different digests, where these two rows are its
  -- inputs.
  abbrev pub NoCollision : Type 0
  NoCollision =
      chain_hash o previous row ≡ chain_hash o previous row'
      → encode_fields (chain_fields o previous row) ≡ encode_fields (chain_fields o previous row')

  contents-differ :
      NoCollision
      → ¬ SameContents o row row'
      → chain_hash o previous row ≢ chain_hash o previous row'
  unfolding chain_fields
  contents-differ no_collision differ same = differ (
      chain_fields-SameContents (
        encode_fields_injective (chain_fields o previous row) (chain_fields o previous row') refl
          (no_collision same)))

text_eq_differ : (s t : Text) → s ≢ t → text_eq s t ≡ false
text_eq_differ s t h = elim (Bool-cases (text_eq s t)) [
  | inl e ↦ absurd (h (text_eq_sound s t e))
  | inr e ↦ e
]

module _ (o : Outside) (watermark : ℕ) (row : EventRow) (w : Walk)
    (hashed : is_empty row.hash ≡ false) where
  stops-contents_changed :
      row.prev_hash ≡ w.previous
      → chain_hash o w.previous row ≢ row.hash
      → check_row o watermark row w ≡ stop (broken w.result row.id contents_changed)
  unfolding check_row
  stops-contents_changed linked differ =
      rw (hashed, text_eq_differ _ _ differ, linked, text_eq_refl w.previous) refl

  stops-link_broken :
      row.prev_hash ≢ w.previous
      → check_row o watermark row w ≡ stop (broken w.result row.id link_broken)
  unfolding check_row
  stops-link_broken differ = rw (hashed, text_eq_differ _ _ differ) refl

module _ (o : Outside) (watermark : ℕ) (old before : List EventRow) (row : EventRow) (db : Db) where
  -- A row of the chain whose time, actor, action, subject, address or metadata was changed is found:
  -- the verdict names it, counts the rows before it, and says that its contents do not match its
  -- hash. The digest does not collide on the two contents.
  pub edited-found :
      (after : List EventRow) (row' : EventRow)
      → Chained o watermark old (before ++ (row ∷ after)) db
      → row'.id ≡ row.id
      → row'.prev_hash ≡ row.prev_hash
      → row'.hash ≡ row.hash
      → ¬ SameContents o row row'
      → NoCollision o row.prev_hash row row'
      → verify o (record db { rows = old ++ (before ++ (row' ∷ after)) })
        ≡ some (broken (clean_result (length before) (length old)) row'.id contents_changed)
  edited-found after row' c at link hash differ no_collision =
      let (front, (p, h, n, tail)) =
        Linked-split o (chain_genesis o watermark) before (row ∷ after) c.linked in
      let rows : db.rows ≡ (old ++ before) ++ (row ∷ after) =
        c.split ∙ sym (append_assoc old before (row ∷ after)) in
      let hashed : is_empty row'.hash ≡ false = ap is_empty hash ∙ n in
      let moved : old ++ (before ++ (row' ∷ after)) ≡ (old ++ before) ++ (row' ∷ after) =
        sym (append_assoc old before (row' ∷ after)) in
      stopped_at o watermark old before after row' db.next_id _ contents_changed c.marked moved
        (subst (λ t. IdsBetween 1 db.next_id t) (sym moved)
          (ids-replaced 1 db.next_id (old ++ before) after row row' at
            (subst (λ t. IdsBetween 1 db.next_id t) rows c.ids)))
        (subst (λ k. watermark ≤ k)
          (ap max_id rows
            ∙ sym (max_id-replaced (old ++ before) after row row' at)
            ∙ ap max_id (sym moved))
          c.top)
        hashed c.old_rows front
        (λ w q. stops-contents_changed o watermark row' w hashed (link ∙ p ∙ sym q) (λ same.
          contents-differ o row.prev_hash row row' no_collision differ (
            ap (λ t. chain_hash o t row) p
            ∙ sym h
            ∙ sym hash
            ∙ sym same
            ∙ ap (λ t. chain_hash o t row') (q ∙ sym p))))

  -- A row of the chain that was deleted is found at the row behind it, if there is one: the verdict
  -- names that row, counts the rows before the gap, and says that its link does not match. The
  -- deleted row is no fixed point of the digest.
  pub deleted-found :
      (next : EventRow) (later : List EventRow)
      → Chained o watermark old (before ++ (row ∷ next ∷ later)) db
      → row.hash ≢ row.prev_hash
      → verify o (record db { rows = old ++ (before ++ (next ∷ later)) })
        ≡ some (broken (clean_result (length before) (length old)) next.id link_broken)
  deleted-found next later c moves =
      let (front, (p, h, n, (p', h', n', tail))) =
        Linked-split o (chain_genesis o watermark) before (row ∷ next ∷ later) c.linked in
      let rows : db.rows ≡ (old ++ before) ++ (row ∷ next ∷ later) =
        c.split ∙ sym (append_assoc old before (row ∷ next ∷ later)) in
      let moved : old ++ (before ++ (next ∷ later)) ≡ (old ++ before) ++ (next ∷ later) =
        sym (append_assoc old before (next ∷ later)) in
      stopped_at o watermark old before later next db.next_id _ link_broken c.marked moved
        (subst (λ t. IdsBetween 1 db.next_id t) (sym moved)
          (ids-removed 1 db.next_id (old ++ before) (next ∷ later) row
            (subst (λ t. IdsBetween 1 db.next_id t) rows c.ids)))
        (subst (λ k. watermark ≤ k)
          (ap max_id rows
            ∙ sym (max_id-removed (old ++ before) later row next)
            ∙ ap max_id (sym moved))
          c.top)
        n' c.old_rows front
        (λ w q. stops-link_broken o watermark next w n' (λ same. moves (sym p' ∙ same ∙ q ∙ sym p)))
