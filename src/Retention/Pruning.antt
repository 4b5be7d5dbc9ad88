-- ===== src/Retention/Pruning.antt =====
-- Pruning in batches ends, and deletes exactly the rows that are due.
use ai_cyber_security_suite.Prelude.{
  ℕ, zero, suc, ◌+◌, ◌-◌, ◌<◌, ◌≡◌, ◌∙◌, refl, inl, inr, Bool, true, false, not, ◌&&◌, List, [],
  ◌∷◌, map, ltb, ltb→lt, ◌==◌, ==_iff, length, keep, All, Distinct, Distinct-keep, select, delete,
  batch_passes, last_batch, keep-delete, delete_exact, length-delete, Bool-cases, arith,
}
use ai_cyber_security_suite.Dispatcher.Outbox.{JobStatus, failed}
use ai_cyber_security_suite.Retention.{
  Row, id_of, prune, Tables, run_once, prune_table, older, days, outbox_prunable, action_prunable,
  run_prunable,
}

length_zero : {S : Type 0} (rows : List (Row S)) → length rows ≡ 0 → rows ≡ []
length_zero [] h = refl
length_zero (r ∷ rs) h = absurd (omega arith)

nothing_due :
    {S : Type 0} (test : Row S → Bool) (rows : List (Row S))
    → All (λ r. test r ≡ true → false ≡ true) rows
    → rows ≡ keep (λ r. not (test r)) rows
nothing_due test [] h = refl
nothing_due test (r ∷ rs) h = ground (arith, nothing_due test rs h.1, h.0)

module _ {S : Type 0} (batch_size : ℕ) (test : Row S → Bool) where
  abbrev batch_of : List (Row S) → List (Row S)
  batch_of rows = select test id_of batch_size rows

  abbrev left_of : List (Row S) → List (Row S)
  left_of rows = delete id_of (map id_of (batch_of rows)) rows

  -- What a batch does: it spares the rows that are not due, and a batch that is not full is the last.
  left_spares :
      (rows : List (Row S))
      → Distinct id_of rows
      → keep (λ r. not (test r)) (left_of rows) ≡ keep (λ r. not (test r)) rows
  left_spares rows d =
      keep-delete id_of test (map id_of (batch_of rows)) rows
        (batch_passes id_of test batch_size rows d)

  left_last :
      (rows : List (Row S))
      → Distinct id_of rows
      → length (batch_of rows) < batch_size
      → left_of rows ≡ keep (λ r. not (test r)) rows
  left_last rows d short =
      delete_exact id_of test (map id_of (batch_of rows)) rows
        (batch_passes id_of test batch_size rows d) (last_batch id_of test batch_size rows short)

  left_none :
      (rows : List (Row S))
      → 0 < batch_size
      → (length (batch_of rows) == 0) ≡ true
      → rows ≡ keep (λ r. not (test r)) rows
  left_none rows pos e =
      let empty = length_zero (batch_of rows) ((==_iff _ 0).0 e) in
      nothing_due test rows (rw empty at (last_batch id_of test batch_size rows (rw empty pos)))

  -- A pass ends within one round more than the table has rows, and deletes exactly the rows that are
  -- due: with distinct keys, a batch size that is not 0, and a worker that is not stopped, it leaves the
  -- other rows in their order, and returns the number of the rows that are gone.
  pub prune_exact :
      (running : ℕ → Bool) (fuel i : ℕ) (rows : List (Row S)) (total : ℕ)
      → ((k : ℕ) → running k ≡ true)
      → 0 < batch_size
      → Distinct id_of rows
      → length rows < fuel
      → ((prune fuel running batch_size test i rows total).0 ≡ keep (λ r. not (test r)) rows)
        × ((prune fuel running batch_size test i rows total).1
              + length (prune fuel running batch_size test i rows total).0
            ≡ total + length rows)
  unfolding prune
  prune_exact running zero i rows total on pos d enough = absurd (omega arith)
  prune_exact running (suc fuel) i rows total on pos d enough =
      rw (on i) (elim (Bool-cases (length (batch_of rows) == 0)) [
        | inl e ↦ rw e (left_none rows pos e, refl)
        | inr e ↦ elim (Bool-cases (ltb (length (batch_of rows)) batch_size)) [
          | inl short ↦
              rw (e, short)
                (
                  left_last rows d (ltb→lt _ _ short),
                  omega (arith, length-delete id_of test batch_size rows d),
                )
          | inr full ↦
              let fewer = length-delete id_of test batch_size rows d in
              let ih =
                prune_exact running fuel (i + 1) (left_of rows) (total + length (batch_of rows)) on
                  pos (Distinct-keep id_of _ rows d) (ground (arith, fewer)) in
              rw (e, full) (ih.0 ∙ left_spares rows d, omega (arith, ih.1, fewer))
        ]
      ])

-- What a pass promises: of each table exactly the rows that are due at `now` are gone.
abbrev pub expire : ℕ → Tables → Tables
expire now t = record {
  soc_event_stream = keep (λ r. not (older (now - days 7) r)) t.soc_event_stream;
  notification_outbox =
      keep (λ r. not (older (now - days 30) r && outbox_prunable r.status)) t.notification_outbox;
  soc_containment_actions =
      keep (λ r. not (older (now - days 90) r && action_prunable r.status))
        t.soc_containment_actions;
  soc_playbook_runs =
      keep (λ r. not (older (now - days 90) r && run_prunable r.status)) t.soc_playbook_runs;
}

-- Each table has a primary key.
abbrev pub IsKeyed : Tables → Type 0
IsKeyed t =
    Distinct id_of t.soc_event_stream
    × Distinct id_of t.notification_outbox
    × Distinct id_of t.soc_containment_actions
    × Distinct id_of t.soc_playbook_runs

table_exact :
    {S : Type 0} (running : ℕ → Bool) (batch_size : ℕ) (test : Row S → Bool) (rows : List (Row S))
    → ((k : ℕ) → running k ≡ true)
    → 0 < batch_size
    → Distinct id_of rows
    → prune_table running batch_size test rows ≡ keep (λ r. not (test r)) rows
table_exact running batch_size test rows on pos d =
    (prune_exact batch_size test running (suc (length rows)) 0 rows 0 on pos d (omega arith)).0

-- A pass of a worker that is not stopped, in batches of any size but 0, does what a single DELETE for
-- each table would do: in tables with primary keys exactly the rows that are due are gone. An outbox
-- row is due only if it is delivered, so that a failed one is never deleted.
pub run_once_refines :
    (running : ℕ → Bool) (batch_size now : ℕ) (t : Tables)
    → ((k : ℕ) → running k ≡ true)
    → 0 < batch_size
    → IsKeyed t
    → (run_once running batch_size now t ≡ expire now t)
      × ((r : Row JobStatus)
          → r.status ≡ failed
          → (older (now - days 30) r && outbox_prunable r.status) ≡ false)
unfolding run_once
run_once_refines running batch_size now t on pos (a, b, c, d) = (
  rw
      (
        table_exact running batch_size _ t.soc_event_stream on pos a,
        table_exact running batch_size _ t.notification_outbox on pos b,
        table_exact running batch_size _ t.soc_containment_actions on pos c,
        table_exact running batch_size _ t.soc_playbook_runs on pos d,
      )
      refl,
  λ r h. rw h (ground arith),
)
