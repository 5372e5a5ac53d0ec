-- ===== src/Audit/Signing.antt =====
-- The signatures of abi/src/audit.rs. HMAC-SHA256 is code of another package: a parameter, which gives
-- the hexadecimal digest of a text under a key. Every length of key is accepted by it.
use Prim.Native.Nat.{bit_or, bit_xor}
use skylet.Prelude.{
  ℕ, zero, suc, ◌+◌, ◌/◌, ◌%◌, ◌≡◌, ◌↔◌, refl, ap, Bool, true, false, not, List, [], ◌∷◌, ◌++◌, ltb,
  ◌==◌, if◌then◌else◌, Result, ok, err, arith,
}
use mathlib.Core.List.{append_assoc}
use skylet.Prelude.Lists.{length}
use skylet.Prelude.Texts.{Text, codes}
use skylet.Prelude.Bits.{bit_xor-eq-zero, bit_or-eq-zero, as_bytes, as_bytes_injective}
use skylet.Version.Number.{print_u64}
use skylet.Audit.{AuditEvent, event_type_index, severity_rank}

pub data AuditLogError : Type 0 where
  backend_error : Text → AuditLogError
  registry_error : Text → AuditLogError

-- The loop of the comparison over the pairs of bytes.
unfoldable pub gather : ℕ → List ℕ → List ℕ → ℕ
gather result (x ∷ xs) (y ∷ ys) = gather (bit_or result (bit_xor x y)) xs ys
gather result _ _ = result

unfoldable pub constant_time_compare : List ℕ → List ℕ → Bool
unfolding gather
constant_time_compare a b = if not (length a == length b) then false else gather 0 a b == 0

gather-eq-zero :
    (result : ℕ) (a b : List ℕ)
    → length a ≡ length b
    → (gather result a b ≡ 0) ↔ ((result ≡ 0) × (a ≡ b))
unfolding gather
gather-eq-zero result [] [] h = ground arith
gather-eq-zero result [] (y ∷ b) h = ground arith
gather-eq-zero result (x ∷ a) [] h = ground arith
gather-eq-zero result (x ∷ a) (y ∷ b) h = ground (
  arith,
  gather-eq-zero (bit_or result (bit_xor x y)) a b (omega arith),
  bit_or-eq-zero result (bit_xor x y),
  bit_xor-eq-zero x y,
)

-- The comparison that takes the same time for all texts of one length is equality.
pub constant_time_compare_iff : (a b : List ℕ) → (constant_time_compare a b ≡ true) ↔ (a ≡ b)
unfolding constant_time_compare
constant_time_compare_iff a b = (
  λ h. ground (arith, gather-eq-zero 0 a b),
  λ h. ground (arith, gather-eq-zero 0 a b, ap (length {0}) h),
)

-- `{:016x}`: the sixteen digits of a number of 64 bits, in front of `acc`.
abbrev hex_digit : ℕ → ℕ
hex_digit d = if ltb d 10 then 48 + d else 87 + d

unfoldable pub hex_digits : ℕ → ℕ → Text → Text
hex_digits zero n acc = acc
hex_digits (suc k) n acc = hex_digits k (n / 16) (hex_digit (n % 16) ∷ acc)

unfoldable pub event_data : AuditEvent → Text
unfolding hex_digits
event_data e =
    hex_digits 16 e.event_id []
    ++ 124
      ∷ (print_u64 (event_type_index e.event_type)
          ++ 124
            ∷ (e.plugin_name
                ++ 124
                  ∷ (e.message
                      ++ 124
                        ∷ (print_u64 e.timestamp ++ 124 ∷ print_u64 (severity_rank e.severity)))))

module _ (hmac_sha256_hex : List ℕ → List ℕ → Text) where
  unfoldable pub sign : List ℕ → AuditEvent → Result Text AuditLogError
  unfolding event_data
  sign [] e = err (backend_error (codes "Secret key cannot be empty"))
  sign (k ∷ ks) e = ok (hmac_sha256_hex (k ∷ ks) (as_bytes (event_data e)))

  unfoldable pub verify : List ℕ → AuditEvent → Text → Result Bool AuditLogError
  unfolding sign constant_time_compare
  verify secret e signature = elim (sign secret e) [
    | err x ↦ err x
    | ok computed ↦ ok (constant_time_compare (as_bytes computed) (as_bytes signature))
  ]

  -- The loop over the pairs of events and signatures.
  unfoldable pub verify_pairs : List ℕ → List AuditEvent → List Text → Result Bool AuditLogError
  unfolding verify
  verify_pairs secret (e ∷ es) (s ∷ ss) =
      let rest = verify_pairs secret es ss in
      elim (verify secret e s) [ err x ↦ err x | ok valid ↦ if not valid then ok false else rest ]
  verify_pairs secret _ _ = ok true

  unfoldable pub verify_chain : List ℕ → List AuditEvent → List Text → Result Bool AuditLogError
  unfolding verify_pairs
  verify_chain secret es ss =
      if not (length es == length ss)
      then err (backend_error (codes "Event and signature count mismatch"))
      else verify_pairs secret es ss

  -- A signature verifies exactly when it is the one that the key makes of the event.
  pub verify_iff :
      (secret : List ℕ) (e : AuditEvent) (signature : Text)
      → (verify secret e signature ≡ ok true) ↔ (sign secret e ≡ ok signature)
  unfolding verify sign
  verify_iff [] e signature = ground arith
  verify_iff (k ∷ ks) e signature =
      let computed = hmac_sha256_hex (k ∷ ks) (as_bytes (event_data e)) in
      let same = constant_time_compare_iff (as_bytes computed) (as_bytes signature) in
      (
        λ h. ap ok (as_bytes_injective computed signature (same.0 (ground arith))),
        λ h. ap ok (same.1 (ap as_bytes (ground arith))),
      )

  -- The events with the signature of each.
  abbrev pub AllSigned : List ℕ → List AuditEvent → List Text → Type 0
  AllSigned secret [] [] = Unit
  AllSigned secret (e ∷ es) (s ∷ ss) = (sign secret e ≡ ok s) × AllSigned secret es ss
  AllSigned secret _ _ = ⊥

  AllSigned-length :
      (secret : List ℕ) (es : List AuditEvent) (ss : List Text)
      → AllSigned secret es ss
      → length es ≡ length ss
  AllSigned-length secret [] [] h = refl
  AllSigned-length secret [] (s ∷ ss) h = absurd h
  AllSigned-length secret (e ∷ es) [] h = absurd h
  AllSigned-length secret (e ∷ es) (s ∷ ss) h = ap suc (AllSigned-length secret es ss h.1)

  verify_pairs_iff :
      (secret : List ℕ) (es : List AuditEvent) (ss : List Text)
      → length es ≡ length ss
      → (verify_pairs secret es ss ≡ ok true) ↔ AllSigned secret es ss
  unfolding verify_pairs
  verify_pairs_iff secret [] [] n = ((λ h. tt), (λ h. refl))
  verify_pairs_iff secret [] (s ∷ ss) n = absurd (omega arith)
  verify_pairs_iff secret (e ∷ es) [] n = absurd (omega arith)
  verify_pairs_iff secret (e ∷ es) (s ∷ ss) n =
      let rest = verify_pairs_iff secret es ss (omega arith) in
      let one = verify_iff secret e s in
      (
        λ h. (one.0 (ground arith), rest.0 (ground arith)),
        λ h. ground (arith, one.1 h.0, rest.1 h.1),
      )

  -- A chain verifies exactly when there is a signature for each event, which is the one that the key
  -- makes of it.
  pub verify_chain_iff :
      (secret : List ℕ) (es : List AuditEvent) (ss : List Text)
      → (verify_chain secret es ss ≡ ok true) ↔ AllSigned secret es ss
  unfolding verify_chain
  verify_chain_iff secret es ss = (
    λ h. (verify_pairs_iff secret es ss (ground arith)).0 (ground arith),
    λ all.
        let same = AllSigned-length secret es ss all in
        ground (arith, same, (verify_pairs_iff secret es ss same).1 all),
  )

  -- An event signs alike when the part of the plugin's name behind a bar moves to the message, and
  -- whatever its stage, error type, action, metadata, retry count and duration become: none of these
  -- is signed, and the bar that joins the parts is not escaped in them.
  pub sign-forged :
      (secret : List ℕ) (e d : AuditEvent) (a b c : Text)
      → sign secret (record e { plugin_name = a ++ 124 ∷ b; message = c })
        ≡ sign secret (record d {
          event_id = e.event_id;
          event_type = e.event_type;
          plugin_name = a;
          message = b ++ 124 ∷ c;
          timestamp = e.timestamp;
          severity = e.severity;
        })
  unfolding sign
  sign-forged [] e d a b c = refl
  sign-forged (k ∷ ks) e d a b c =
      ap (λ t. ok (hmac_sha256_hex (k ∷ ks) (as_bytes t))) (unfold event_data in simp append_assoc)
