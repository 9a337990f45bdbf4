-- ===== src/Audit/Chain.antt =====
-- Appending keeps the chain of audit.py verifiable, also after a failed sync, and a logger that
-- is opened on the rows of another goes on where that one stopped.
use ai_decision_firewall.Prelude.{
  ℕ, suc, ◌+◌, String, string_eq, ◌≡◌, refl, sym, ap, ◌∙◌, true, List, [], ◌∷◌, ◌++◌, some, ok,
  arith, equals_refl,
}
use ai_decision_firewall.Audit.{
  Body, Row, genesis, Storage, file, AuditLogger, Sync, claimed_text, empty_logger, body_of, hashed,
  advance, append, verify_from, tip, verify_rows, open_logger, last_row, resume,
}

module _ {P : Type 0} (sha256_body : Body P → String) where
  -- The sequence number after the last row.
  abbrev next_sequence : ℕ → List (Row P) → ℕ
  next_sequence n [] = n
  next_sequence n (row ∷ rows) = next_sequence (row.body.sequence + 1) rows

  -- The rows verify, and the tip and the counter are those of the rows.
  pub record IsChained (logger : AuditLogger P) : Type 0 where
    pub verified : verify_from sha256_body 0 genesis logger.rows ≡ []
    pub at_tip : logger.previous_hash ≡ tip genesis logger.rows
    pub counted : logger.sequence ≡ next_sequence 0 logger.rows

  verify_from-append :
      (n : ℕ) (previous : String) (rows : List (Row P)) (body : Body P)
      → verify_from sha256_body n previous rows ≡ []
      → body.previous_hash ≡ some (tip previous rows)
      → verify_from sha256_body n previous (rows ++ hashed sha256_body body ∷ []) ≡ []
  unfolding verify_from
  verify_from-append n previous [] body v e =
      ground (arith, equals_refl previous, equals_refl (sha256_body body))
  verify_from-append n previous (row ∷ rows) body v e =
      ground (arith, verify_from-append (suc n) (claimed_text row.record_hash) rows body)

  tip-append :
      (previous : String) (rows : List (Row P)) (body : Body P)
      → tip previous (rows ++ hashed sha256_body body ∷ []) ≡ sha256_body body
  tip-append previous [] body = refl
  tip-append previous (row ∷ rows) body = tip-append (claimed_text row.record_hash) rows body

  next_sequence-append :
      (n : ℕ) (rows : List (Row P)) (body : Body P)
      → next_sequence n (rows ++ hashed sha256_body body ∷ []) ≡ body.sequence + 1
  next_sequence-append n [] body = refl
  next_sequence-append n (row ∷ rows) body = next_sequence-append (row.body.sequence + 1) rows body

  advance-IsChained :
      (logger : AuditLogger P) (body : Body P)
      → IsChained logger
      → body.previous_hash ≡ some logger.previous_hash
      → body.sequence ≡ logger.sequence
      → IsChained (advance sha256_body logger body)
  advance-IsChained logger body c prev seq = record {
    verified = verify_from-append 0 genesis logger.rows body c.verified (prev ∙ ap some c.at_tip);
    at_tip = sym (tip-append genesis logger.rows body);
    counted = ap (λ (n : ℕ). n + 1) (sym seq) ∙ sym (next_sequence-append 0 logger.rows body);
  }

  -- An append keeps the chain valid, whether or not the file system reports it durable.
  pub append-IsChained :
      (logger : AuditLogger P) (sync : Sync) (recorded_at record_type : String) (payload : P)
      → IsChained logger
      → IsChained (append sha256_body logger sync recorded_at record_type payload).1
  unfolding append
  append-IsChained logger sync recorded_at record_type payload c =
      advance-IsChained logger (body_of sha256_body logger recorded_at record_type payload) c refl
        refl

  pub empty-IsChained : (storage : Storage) → IsChained (empty_logger P storage)
  unfolding verify_from
  empty-IsChained storage = record { verified = refl; at_tip = refl; counted = refl }

  -- One call of `append`: whether the sync succeeds, the time, the record type and the payload.
  abbrev pub Call : Type 0
  Call = Sync × String × String × P

  pub append_all : AuditLogger P → List Call → AuditLogger P
  append_all logger [] = logger
  append_all logger ((sync, recorded_at, record_type, payload) ∷ calls) =
      append_all (append sha256_body logger sync recorded_at record_type payload).1 calls

  append_all-IsChained :
      (logger : AuditLogger P) (calls : List Call)
      → IsChained logger
      → IsChained (append_all logger calls)
  unfolding append_all
  append_all-IsChained logger [] c = c
  append_all-IsChained logger ((sync, recorded_at, record_type, payload) ∷ calls) c =
      append_all-IsChained (append sha256_body logger sync recorded_at record_type payload).1 calls
        (append-IsChained logger sync recorded_at record_type payload c)

  -- After any appends to a new log, some of which may have raised for an ambiguous sync, the rows
  -- verify with no error.
  pub verify_rows-append_all :
      (storage : Storage) (calls : List Call)
      → verify_rows sha256_body (append_all (empty_logger P storage) calls).rows ≡ (true, [])
  unfolding verify_rows
  verify_rows-append_all storage calls =
      rw (append_all-IsChained (empty_logger P storage) calls (empty-IsChained storage)).verified
        refl

  last_row_lem :
      (n : ℕ) (h : String) (row : Row P) (rows : List (Row P))
      → (claimed_text (last_row sha256_body row rows).record_hash ≡ tip h (row ∷ rows))
        × ((last_row sha256_body row rows).body.sequence + 1 ≡ next_sequence n (row ∷ rows))
  last_row_lem n h row [] = (refl, refl)
  last_row_lem n h row (next ∷ rows) =
      last_row_lem (row.body.sequence + 1) (claimed_text row.record_hash) next rows

  resume_at_tip :
      (rows : List (Row P)) (previous : String) (n : ℕ)
      → previous ≡ tip genesis rows
      → n ≡ next_sequence 0 rows
      → resume sha256_body rows
        ≡ record { storage = file; rows = rows; previous_hash = previous; sequence = n }
  resume_at_tip [] previous n p q = ground arith
  resume_at_tip (row ∷ rows) previous n p q =
      ground (arith, (last_row_lem 0 genesis row rows).0, (last_row_lem 0 genesis row rows).1)

  -- A logger that is opened on the rows that another left continues it: the same tip and the same
  -- counter.
  open_logger-rows :
      (logger : AuditLogger P)
      → IsChained logger
      → open_logger sha256_body logger.rows ≡ ok (record logger { storage = file })
  unfolding open_logger verify_rows
  open_logger-rows logger c =
      rw c.verified
        (ap ok (resume_at_tip logger.rows logger.previous_hash logger.sequence c.at_tip c.counted))
