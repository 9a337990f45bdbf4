-- ===== src/Audit/Tamper.antt =====
-- What a verified chain of audit.py pins down: with the hash of its last row, all of its rows.
use ai_decision_firewall.Prelude.{
  ℕ, suc, String, string_eq, ◌≡◌, refl, sym, ap, ◌∙◌, true, List, [], ◌∷◌, Option, none, some,
  arith, length, eq_iff,
}
use ai_decision_firewall.Audit.{Body, Row, genesis, claimed_text, is_text, verify_from, tip}

is_text-eq_some : (o : Option String) (t : String) → is_text o t ≡ true → o ≡ some t
is_text-eq_some none t h = cc
is_text-eq_some (some h) t e = ap some ((eq_iff h t).0 e)

module _ {P : Type 0} (sha256_body : Body P → String) where
  -- No two different rows at the same place have the same hash.
  abbrev pub NoCollision : List (Row P) → List (Row P) → Type 0
  NoCollision (x ∷ xs) (y ∷ ys) =
      (sha256_body x.body ≡ sha256_body y.body → x.body ≡ y.body) × NoCollision xs ys
  NoCollision _ _ = Unit

  verified_parts :
      (n : ℕ) (previous : String) (row : Row P) (rows : List (Row P))
      → verify_from sha256_body n previous (row ∷ rows) ≡ []
      → (is_text row.body.previous_hash previous ≡ true)
        × (is_text row.record_hash (sha256_body row.body) ≡ true)
        × (verify_from sha256_body (suc n) (claimed_text row.record_hash) rows ≡ [])
  unfolding verify_from
  verified_parts n previous row rows h = (ground arith, ground arith, ground arith)

  row_eq :
      (p q : String) (x y : Row P) (xs ys : List (Row P))
      → x.body.previous_hash ≡ some p
      → y.body.previous_hash ≡ some q
      → x.record_hash ≡ some (sha256_body x.body)
      → y.record_hash ≡ some (sha256_body y.body)
      → claimed_text x.record_hash ≡ claimed_text y.record_hash
      → (sha256_body x.body ≡ sha256_body y.body → x.body ≡ y.body)
      → xs ≡ ys
      → (Path (List (Row P)) (x ∷ xs) (y ∷ ys)) × (p ≡ q)
  row_eq p q x y xs ys xp yp xh yh same inj rest =
      let hashes : sha256_body x.body ≡ sha256_body y.body =
        sym (ap claimed_text xh) ∙ same ∙ ap claimed_text yh in
      let bodies = inj hashes in (cc, cc)

  -- Two chains that verify and end in the same hash agree in every row, and started from the same
  -- hash.
  verified_tip_eq :
      (n m : ℕ) (p q : String) (xs ys : List (Row P))
      → verify_from sha256_body n p xs ≡ []
      → verify_from sha256_body m q ys ≡ []
      → length xs ≡ length ys
      → NoCollision xs ys
      → tip p xs ≡ tip q ys
      → (xs ≡ ys) × (p ≡ q)
  verified_tip_eq n m p q [] [] v w l c e = (refl, e)
  verified_tip_eq n m p q [] (y ∷ ys) v w l c e = absurd (omega arith)
  verified_tip_eq n m p q (x ∷ xs) [] v w l c e = absurd (omega arith)
  verified_tip_eq n m p q (x ∷ xs) (y ∷ ys) v w l c e =
      let (xp, xh, xv) = verified_parts n p x xs v in
      let (yp, yh, yv) = verified_parts m q y ys w in
      let (rest, same) =
        verified_tip_eq (suc n) (suc m) (claimed_text x.record_hash) (claimed_text y.record_hash) xs
          ys xv yv (omega arith) c.1 e in
      row_eq p q x y xs ys (is_text-eq_some x.body.previous_hash p xp)
        (is_text-eq_some y.body.previous_hash q yp)
        (is_text-eq_some x.record_hash (sha256_body x.body) xh)
        (is_text-eq_some y.record_hash (sha256_body y.body) yh) same c.0 rest

  -- Two logs of the same length that both verify and end in the same hash are the same log, as
  -- long as no two different rows at one place have the same hash: no row can be altered,
  -- replaced or reordered under a hash that was noted.
  pub verify_from_injective :
      (xs ys : List (Row P))
      → verify_from sha256_body 0 genesis xs ≡ []
      → verify_from sha256_body 0 genesis ys ≡ []
      → length xs ≡ length ys
      → NoCollision xs ys
      → tip genesis xs ≡ tip genesis ys
      → xs ≡ ys
  verify_from_injective xs ys v w l c e = (verified_tip_eq 0 0 genesis genesis xs ys v w l c e).0
