-- ===== src/Security/Grace.antt =====
-- Authentication with the grace period, in abi/src/security.rs.
use skylet.Prelude.{
  ℕ, suc, ◌+◌, ◌<◌, ◌≡◌, refl, ap, ◌∙◌, some, List, [], ◌∷◌, ◌++◌, arith, Result, ok, err,
}
use mathlib.Core.List.{reverse, reverse-append}
use skylet.Prelude.Lists.{length}
use skylet.Prelude.Texts.{Text}
use skylet.Prelude.Dict
use skylet.Prelude.Dict.{Dict, lookup-insert}
use skylet.AbiCompat.{u32_mod}
use skylet.Security.{SecurityError}
use skylet.Security.Credentials.{CredentialVersion, active, new_authenticator, authenticate}
use skylet.Security.Renewal.{try_versions, authenticate_with_grace_period}
use skylet.Security.Roles.{PluginRole}
use skylet.Security.Rotation.{Versions, Call, calls, calls-Versions}

-- The last of the versions.
record Last (n : ℕ) (vs : List CredentialVersion) : Type 0 where
  earlier : List CredentialVersion
  last : CredentialVersion
  split : vs ≡ earlier ++ last ∷ []
  is_active : last.status ≡ active
  number : last.version + 1 ≡ n + length vs

Versions-Last :
    (n : ℕ) (v : CredentialVersion) (vs : List CredentialVersion)
    → Versions n (v ∷ vs)
    → Last n (v ∷ vs)
Versions-Last n v [] h = record {
  earlier = [];
  last = v;
  split = refl;
  is_active = h.1;
  number = omega (arith, h.0);
}
Versions-Last n v (w ∷ vs) h =
    let l = Versions-Last (suc n) w vs h.2 in
    record {
      earlier = v ∷ l.earlier;
      last = l.last;
      split = ap (λ k. v ∷ k) l.split;
      is_active = l.is_active;
      number = omega (arith, l.number);
    }

abbrev pub numbered_answer :
    ℕ → Result PluginRole SecurityError → Result (PluginRole × ℕ) SecurityError
numbered_answer n (ok role) = ok (role, n)
numbered_answer n (err e) = err e

try_versions-active :
    (now : ℕ) (answer : Result PluginRole SecurityError) (v : CredentialVersion)
    (vs : List CredentialVersion)
    → v.status ≡ active
    → try_versions now answer (v ∷ vs) ≡ numbered_answer v.version answer
unfolding try_versions
try_versions-active now (ok role) v vs h = rw (h, try_versions) refl
try_versions-active now (err e) v vs h = rw (h, try_versions) refl

-- For a plugin that was rotated, authentication with the grace period answers as the plain one does,
-- with the number of the last version: the versions in grace are never reached.
pub authenticate_with_grace_period-last :
    (cs : List Call) (now : ℕ) (id : Text) (vs : List CredentialVersion)
    → length cs < u32_mod
    → Dict.lookup id (calls cs new_authenticator).credential_versions ≡ some vs
    → authenticate_with_grace_period now id (calls cs new_authenticator)
      ≡ numbered_answer (length vs) (authenticate now id (calls cs new_authenticator))
unfolding authenticate_with_grace_period
authenticate_with_grace_period-last cs now id [] f h =
    absurd (omega (arith, (calls-Versions cs id [] f h).0))
authenticate_with_grace_period-last cs now id (v ∷ vs) f h =
    let a = calls cs new_authenticator in
    let l = Versions-Last 1 v vs (calls-Versions cs id (v ∷ vs) f h).1 in
    let answer = authenticate now id a in
    let number : l.last.version ≡ length (v ∷ vs) = omega (arith, l.number) in
    rw (h, authenticate_with_grace_period)
      (ap (λ k. try_versions now answer (reverse k)) l.split
        ∙ ap (try_versions now answer) (reverse-append l.earlier (l.last ∷ []))
        ∙ try_versions-active now answer l.last (reverse l.earlier) l.is_active
        ∙ ap (λ n. numbered_answer n answer) number)
