-- ===== src/Audit/Walk.antt =====
-- The batches of the walk over the audit chain (internal/platform/audit/chain.go).
use nexa_panel.Prelude.{
  ℕ, zero, suc, ◌≤◌, ◌<◌, ◌≡◌, ◌≢◌, refl, subst, ap, sym, ◌∙◌, Option, some, List, [], ◌∷◌, ◌++◌,
  arith, inl, inr, ◌⊎◌, length, take, Ascending, Ascending-weaken,
}
use nexa_panel.Audit.Chain.{Outside, EventRow}
use nexa_panel.Audit.Verify.{
  Walk, Walked, stop, go_on, VerifyResult, check_row, check_rows, continue, finish, past,
  verify_page, verify_loop,
}

abbrev drop_rows : ℕ → List EventRow → List EventRow
drop_rows zero rows = rows
drop_rows (suc n) [] = []
drop_rows (suc n) (row ∷ rows) = drop_rows n rows

take-drop_rows : (n : ℕ) (rows : List EventRow) → take n rows ++ drop_rows n rows ≡ rows
take-drop_rows zero rows = refl
take-drop_rows (suc n) [] = refl
take-drop_rows (suc n) (row ∷ rows) = ap (λ t. row ∷ t) (take-drop_rows n rows)

length-drop_rows-le : (n : ℕ) (rows : List EventRow) → length (drop_rows n rows) ≤ length rows
length-drop_rows-le zero rows = omega arith
length-drop_rows-le (suc n) [] = omega arith
length-drop_rows-le (suc n) (row ∷ rows) = omega (arith, length-drop_rows-le n rows)

-- The verdict of a walk that is over.
unfoldable pub verdict_of : Walked → Option VerifyResult
verdict_of (stop result) = some result
verdict_of (go_on w) = some w.result

abbrev pub IdsBetween : ℕ → ℕ → List EventRow → Type 0
IdsBetween = Ascending (λ (r : EventRow). r.id)

pub past-all :
    (c lo hi : ℕ) (rows : List EventRow) → c < lo → IdsBetween lo hi rows → past c rows ≡ rows
unfolding past
past-all c lo hi [] h a = refl
past-all c lo hi (row ∷ rows) h (le, a) =
    ground (arith, past-all c (suc row.id) hi rows (omega arith) a)

past-past : (c c' : ℕ) (rows : List EventRow) → c ≤ c' → past c' (past c rows) ≡ past c' rows
unfolding past
past-past c c' [] h = refl
past-past c c' (row ∷ rows) h = ground (arith, past-past c c' rows h)

past-skip :
    (c : ℕ) (row : EventRow) (rows : List EventRow) → row.id ≤ c → past c (row ∷ rows) ≡ past c rows
unfolding past
past-skip c row rows h = ground arith

walked_cases : (t : Walked) → ((r : VerifyResult) × (t ≡ stop r)) ⊎ ((w : Walk) × (t ≡ go_on w))
walked_cases (stop r) = inl (r, refl)
walked_cases (go_on w) = inr (w, refl)

abbrev cursor_of : Walked → ℕ
cursor_of (stop r) = 0
cursor_of (go_on w) = w.cursor

stop_go_on : (r : VerifyResult) (w : Walk) → stop r ≢ go_on w
stop_go_on r w e = cc

module _ (o : Outside) (watermark : ℕ) where
  check_row-cursor :
      (row : EventRow) (w w' : Walk) → check_row o watermark row w ≡ go_on w' → w'.cursor ≡ row.id
  unfolding check_row
  check_row-cursor row w w' e = ground arith

  -- A row that the walk passes leaves the walk at its id.
  row_passed :
      (row : EventRow) (w : Walk)
      → ((r : VerifyResult) × (check_row o watermark row w ≡ stop r))
        ⊎ ((w' : Walk) × (check_row o watermark row w ≡ go_on w') × (w'.cursor ≡ row.id))
  row_passed row w = elim (walked_cases (check_row o watermark row w)) [
    | inl (r, e) ↦ inl (r, e)
    | inr (w', e) ↦ inr (w', e, check_row-cursor row w w' e)
  ]

  page_passed :
      (lo hi : ℕ) (page more : List EventRow) (w w' : Walk)
      → check_rows o watermark page w ≡ go_on w'
      → w.cursor < lo
      → IdsBetween lo hi (page ++ more)
      → (w.cursor ≤ w'.cursor)
        × (past w'.cursor (page ++ more) ≡ more)
        × IdsBetween (suc w'.cursor) hi more
  unfolding check_rows
  page_passed lo hi [] more w w' e h a =
      let same : w.cursor ≡ w'.cursor = ap cursor_of e in
      (
        omega (arith, same),
        past-all w'.cursor lo hi more (omega (arith, same)) a,
        Ascending-weaken (λ (r : EventRow). r.id) lo (suc w'.cursor) hi more (omega (arith, same))
            a,
      )
  page_passed lo hi (row ∷ page) more w w' e h (le, a) = elim (row_passed row w) [
    | inl (r, stopped) ↦
        absurd
          (stop_go_on r w' (sym (ap (λ t. continue t (check_rows o watermark page)) stopped) ∙ e))
    | inr (w1, went, at) ↦
        let (le', rest, after) =
          page_passed (suc row.id) hi page more w1 w'
            (sym (ap (λ t. continue t (check_rows o watermark page)) went) ∙ e) (omega (arith, at))
            a in
        (
          omega (arith, at),
          past-skip w'.cursor row (page ++ more) (omega (arith, at)) ∙ rest,
          after,
        )
  ]

  pub check_rows-append :
      (page more : List EventRow) (w : Walk)
      → check_rows o watermark (page ++ more) w
        ≡ continue (check_rows o watermark page w) (check_rows o watermark more)
  unfolding check_rows continue
  check_rows-append [] more w = refl
  check_rows-append (row ∷ page) more w = elim (row_passed row w) [
    | inl (r, stopped) ↦ rw stopped refl
    | inr (w1, went, at) ↦ rw went (check_rows-append page more w1)
  ]

  -- From a walk that has come as far as the rows that are left, the loop gives the verdict on these
  -- rows, whatever its batches are.
  pub loop_walk :
      (fuel n lo hi : ℕ) (rows rest : List EventRow) (w : Walk)
      → past w.cursor rows ≡ rest
      → w.cursor < lo
      → IdsBetween lo hi rest
      → length rest < fuel
      → verify_loop o fuel (suc n) watermark rows w ≡ verdict_of (check_rows o watermark rest w)
  unfolding verify_loop verify_page finish continue verdict_of
  loop_walk zero n lo hi rows rest w e h a room = absurd (omega (arith, room))
  loop_walk (suc fuel) n lo hi rows [] w e h a room = rw e refl
  loop_walk (suc fuel) n lo hi rows (row ∷ rest) w e h a room =
      let page = row ∷ take n rest in
      let more = drop_rows n rest in
      let joined : page ++ more ≡ row ∷ rest = ap (λ t. row ∷ t) (take-drop_rows n rest) in
      let whole : check_rows o watermark (row ∷ rest) w
          ≡ continue (check_rows o watermark page w) (check_rows o watermark more) =
        ap (λ t. check_rows o watermark t w) (sym joined) ∙ check_rows-append page more w in
      let go = verify_loop o fuel (suc n) watermark rows in
      rw (e, whole)
        (elim (walked_cases (check_rows o watermark page w)) [
          | inl (r, stopped) ↦ rw stopped refl
          | inr (w', went) ↦
              let (le, left, after) =
                page_passed lo hi page more w w' went h
                  (subst (λ t. IdsBetween lo hi t) (sym joined) a) in
              let ih =
                loop_walk fuel n (suc w'.cursor) hi rows more w'
                  (sym (past-past w.cursor w'.cursor rows le)
                    ∙ ap (past w'.cursor) (e ∙ sym joined)
                    ∙ left)
                  (omega arith) after (omega (arith, room, length-drop_rows-le n rest)) in
              rw went ih
        ])
