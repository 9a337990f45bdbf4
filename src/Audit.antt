-- ===== src/Audit.antt =====
-- src/adf_poc/audit.py: the append-only log, each row of which holds the hash of the row before.
pub mod Chain
pub mod Tamper
use ai_decision_firewall.Prelude.{
  ℕ, suc, ◌+◌, String, string_eq, ◌==◌, Bool, true, false, not, List, [], ◌∷◌, ◌++◌, Option, none,
  some, Result, ok, err, is_empty, if◌then◌else◌,
}

-- A row without its own hash. A row that is read back may lack a member: then it is `none`.
pub record Body (P : Type 0) : Type 0 where
  pub sequence : ℕ
  pub recorded_at : String
  pub record_type : String
  pub previous_hash : Option String
  pub payload : P

pub record Row (P : Type 0) : Type 0 where
  pub body : Body P
  pub open body use *
  pub record_hash : Option String

-- `"0" * 64`
abbrev pub genesis : String
genesis = "0000000000000000000000000000000000000000000000000000000000000000"

-- Where the rows are kept: `_rows`, or the lines of the file at `path`.
pub data Storage : Type 0 where
  memory file : Storage

pub record AuditLogger (P : Type 0) : Type 0 where
  pub storage : Storage
  pub rows : List (Row P)
  pub previous_hash : String
  pub sequence : ℕ

-- Whether the file system reports that the row is durable.
pub data Sync : Type 0 where
  synced sync_failed : Sync

pub data AuditFault : Type 0 where
  durability_ambiguous : AuditFault
  chain_invalid : AuditFault
  no_rows : AuditFault

-- A message of `_verify_indexed_rows`, with the index of its record.
pub data ChainError : Type 0 where
  previous_mismatch : ℕ → ChainError
  hash_invalid : ℕ → ChainError

-- `str(claimed)`
abbrev pub claimed_text : Option String → String
claimed_text none = "None"
claimed_text (some h) = h

-- Equality of two optional texts, and of a text with an optional one.
abbrev pub is_text : Option String → String → Bool
is_text none t = false
is_text (some h) t = h == t

-- A new logger without a file.
abbrev pub empty_logger : (P : Type 0) → Storage → AuditLogger P
empty_logger P storage = record {
  storage = storage;
  rows = [];
  previous_hash = genesis;
  sequence = 0;
}

module _ {P : Type 0} where
  -- The hash that the last row claims, where `previous` stands before the first.
  abbrev pub tip : String → List (Row P) → String
  tip previous [] = previous
  tip previous (row ∷ rows) = tip (claimed_text row.record_hash) rows

-- `sha256_json` of a row without its hash: SHA-256 over canonical JSON.
module _ {P : Type 0} (sha256_body : Body P → String) where
  abbrev pub body_of : AuditLogger P → String → String → P → Body P
  body_of logger recorded_at record_type payload = record {
    sequence = logger.sequence;
    recorded_at = recorded_at;
    record_type = record_type;
    previous_hash = some logger.previous_hash;
    payload = payload;
  }

  abbrev pub hashed : Body P → Row P
  hashed body = record { body = body; record_hash = some (sha256_body body) }

  -- The row is kept and the tip moves on, also where the durability of the row is ambiguous.
  abbrev pub advance : AuditLogger P → Body P → AuditLogger P
  advance logger body = record {
    storage = logger.storage;
    rows = logger.rows ++ hashed body ∷ [];
    previous_hash = sha256_body body;
    sequence = logger.sequence + 1;
  }

  abbrev outcome : Storage → Sync → Row P → Result AuditFault (Row P)
  outcome file sync_failed row = err durability_ambiguous
  outcome _ _ row = ok row

  -- `AuditLogger.append`, in memory or on a file that is not bound to a descriptor.
  unfoldable pub append :
      AuditLogger P
      → Sync
      → (recorded_at record_type : String) → P
      → Result AuditFault (Row P) × AuditLogger P
  append logger sync recorded_at record_type payload =
      let body = body_of logger recorded_at record_type payload in
      (outcome logger.storage sync (hashed body), advance logger body)

  -- The errors of one record, at its index, where `previous` is the hash that was claimed before.
  abbrev pub row_errors : ℕ → String → Row P → List ChainError
  row_errors index previous row =
      (if is_text row.body.previous_hash previous then [] else previous_mismatch index ∷ [])
      ++ (if is_text row.record_hash (sha256_body row.body) then [] else hash_invalid index ∷ [])

  -- `_verify_indexed_rows`, on rows that are numbered from `index`.
  unfoldable pub verify_from : ℕ → String → List (Row P) → List ChainError
  verify_from index previous [] = []
  verify_from index previous (row ∷ rows) =
      row_errors index previous row ++ verify_from (suc index) (claimed_text row.record_hash) rows

  -- `AuditLogger.verify_rows`
  unfoldable pub verify_rows : List (Row P) → Bool × List ChainError
  verify_rows rows = let errors = verify_from 0 genesis rows in (is_empty errors, errors)

  abbrev last_row : Row P → List (Row P) → Row P
  last_row row [] = row
  last_row row (next ∷ rows) = last_row next rows

  abbrev resume : List (Row P) → AuditLogger P
  resume [] = empty_logger P file
  resume (row ∷ rows) =
      let last = last_row row rows in
      record {
        storage = file;
        rows = row ∷ rows;
        previous_hash = claimed_text last.record_hash;
        sequence = last.body.sequence + 1;
      }

  -- `AuditLogger.__init__` at a path: the rows of the file there, none if it is new or empty.
  unfoldable pub open_logger : List (Row P) → Result AuditFault (AuditLogger P)
  open_logger rows = if (verify_rows rows).0 then ok (resume rows) else err chain_invalid
