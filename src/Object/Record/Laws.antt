-- ===== src/Object/Record/Laws.antt =====
-- Normalised records pass the length check.
use virtual_yubihsm.Prelude.{ℕ, ◌≡◌, subst, ap, ◌∙◌, arith}
use virtual_yubihsm.Error.{ok, ◌>>=◌, >>=-eq-ok}
use virtual_yubihsm.Keys.{Keys}
use virtual_yubihsm.Object.Record.{
  ObjectRecord, expected_info_length, normalize_info_length, to_u16,
}

to_u16-eq : (n m : ℕ) → to_u16 n ≡ ok m → n ≡ m
to_u16-eq n m e = ground arith

module _ ⦃keys : Keys⦄ where
  with_length : ObjectRecord → ℕ → ObjectRecord
  with_length object n = record object { info = record object.info { length = n } }

  -- A normalised record has the length that it is expected to have.
  pub expected_info_length-normalize_info_length :
      (object normalized : ObjectRecord)
      → normalize_info_length object ≡ ok normalized
      → expected_info_length normalized ≡ ok normalized.info.length
  unfolding normalize_info_length with_length expected_info_length
  expected_info_length-normalize_info_length object normalized e =
      let (size, expected, rest) =
        >>=-eq-ok (expected_info_length object)
          (λ size. to_u16 size >>= λ n. ok (with_length object n)) e in
      let (n, fits, made) = >>=-eq-ok (to_u16 size) (λ n. ok (with_length object n)) rest in
      let same : with_length object n ≡ normalized = cc in
      subst (λ r. expected_info_length r ≡ ok r.info.length) same
        (expected ∙ ap ok (to_u16-eq size n fits))
