-- ===== src/Security/Rotation.antt =====
-- Rotating the credentials of abi/src/security.rs: how the versions of a plugin follow one another.
use skylet.Prelude.{
  ℕ, suc, ◌+◌, ◌≤◌, ◌<◌, ◌≡◌, refl, sym, ap, true, Option, none, some, List, [], ◌∷◌, ◌++◌, arith,
  Option-cases, inl, inr,
}
use mathlib.Core.Path.{subst}
use skylet.Prelude.Lists.{length, length-append, filter}
use skylet.Prelude.Texts.{Text}
use skylet.Prelude.Dict
use skylet.Prelude.Dict.{Dict, lookup-insert}
use skylet.Prelude.Sets.{AllValues, AllValues-insert, AllValues-lookup}
use skylet.AbiCompat.{u32_mod}
use skylet.Security.Credentials.{
  PluginCredential, CredentialType, CredentialVersion, PluginAuthenticator, active, grace,
  new_authenticator, new_credential_version, or_none, register_plugin, set_role, revoke_plugin,
}
use skylet.Security.Renewal.{
  RotationClock, next_version, mark_grace, rotated, renewed, rotate_credential, clean, stays,
  cleanup_expired_credentials,
}
use skylet.Security.Roles.{PluginRole}

-- The versions of a plugin: numbered from `n` on, the last one active, and those before it in grace.
abbrev pub Versions : ℕ → List CredentialVersion → Type 0
Versions n [] = Unit
Versions n (v ∷ []) = (v.version ≡ n) × (v.status ≡ active)
Versions n (v ∷ w ∷ vs) = (v.version ≡ n) × (v.status ≡ grace) × Versions (suc n) (w ∷ vs)

next_version-Versions :
    (n : ℕ) (v : CredentialVersion) (vs : List CredentialVersion)
    → Versions n (v ∷ vs)
    → n + length (v ∷ vs) < u32_mod
    → next_version (v ∷ vs) ≡ n + length (v ∷ vs)
next_version-Versions n v [] h k = omega (arith, h.0)
next_version-Versions n v (w ∷ vs) h k =
    omega (arith, next_version-Versions (suc n) w vs h.2 (omega arith))

mark_grace-Versions :
    (n k now created : ℕ) (c : PluginCredential) (vs : List CredentialVersion)
    → Versions n vs
    → k ≡ n + length vs
    → Versions n (mark_grace now vs ++ new_credential_version created k c ∷ [])
mark_grace-Versions n k now created c [] h e = (omega arith, refl)
mark_grace-Versions n k now created c (v ∷ []) h e = (h.0, refl, (omega arith, refl))
mark_grace-Versions n k now created c (v ∷ w ∷ []) h e =
    (h.0, h.1, (h.2.0, refl, (omega arith, refl)))
mark_grace-Versions n k now created c (v ∷ w ∷ x ∷ vs) h e =
    (h.0, h.1, mark_grace-Versions (suc n) k now created c (w ∷ x ∷ vs) h.2 (omega arith))

length-mark_grace : (now : ℕ) (vs : List CredentialVersion) → length (mark_grace now vs) ≡ length vs
length-mark_grace now [] = refl
length-mark_grace now (v ∷ []) = refl
length-mark_grace now (v ∷ w ∷ vs) = ap suc (length-mark_grace now (w ∷ vs))

-- What holds of the versions of a plugin after `k` rotations at most.
pub record IsLine (k : ℕ) (vs : List CredentialVersion) : Type 0 where
  pub some_version : 0 < length vs
  pub numbered : Versions 1 vs
  pub bound : length vs ≤ k

-- The calls of an authenticator that change it.
pub data Call : Type 0 where
  register : ℕ → Text → CredentialType → List ℕ → PluginRole → List Text → Call
  assign : Text → PluginRole → Call
  revoke : Text → Call
  rotate : RotationClock → Text → List ℕ → Text → Call
  cleanup : ℕ → Call

unfoldable pub call : Call → PluginAuthenticator → PluginAuthenticator
unfolding register_plugin set_role revoke_plugin
call (register now id t d role scopes) a = register_plugin now id t d role scopes a
call (assign id role) a = set_role id role a
call (revoke id) a = revoke_plugin id a
call (rotate clock id d reason) a = (rotate_credential clock id d reason a).0
call (cleanup now) a = (cleanup_expired_credentials now a).0

unfoldable pub calls : List Call → PluginAuthenticator → PluginAuthenticator
unfolding call
calls [] a = a
calls (c ∷ cs) a = calls cs (call c a)

abbrev Lines : ℕ → PluginAuthenticator → Type 0
Lines k a = AllValues (IsLine k) a.credential_versions

AllValues-weaken :
    (k : ℕ) (m : Dict (List CredentialVersion))
    → AllValues (IsLine k) m
    → AllValues (IsLine (suc k)) m
AllValues-weaken k [] h = tt
AllValues-weaken k ((id, vs) ∷ m) h = (
  record {
    some_version = h.0.some_version;
    numbered = h.0.numbered;
    bound = omega (arith, h.0.bound);
  },
  AllValues-weaken k m h.1,
)

renewed-IsLine :
    (k now created : ℕ) (c : PluginCredential) (o : Option (List CredentialVersion))
    → k + 1 < u32_mod
    → ((vs : List CredentialVersion) → o ≡ some vs → IsLine k vs)
    → IsLine (suc k) (
        mark_grace now (or_none o)
        ++ new_credential_version created (next_version (or_none o)) c ∷ [])
renewed-IsLine k now created c none h line = record {
  some_version = omega arith;
  numbered = (refl, refl);
  bound = omega arith;
}
renewed-IsLine k now created c (some []) h line =
    absurd (omega (arith, (line [] refl).some_version))
renewed-IsLine k now created c (some (v ∷ vs)) h line =
    let l = line (v ∷ vs) refl in
    let fits : 1 + length (v ∷ vs) < u32_mod = omega (arith, l.bound) in
    let n = next_version (v ∷ vs) in
    record {
      some_version = omega (
        arith,
        length-append {0} (mark_grace now (v ∷ vs)) (new_credential_version created n c ∷ []),
      );
      numbered =
          mark_grace-Versions 1 n now created c (v ∷ vs) l.numbered
            (next_version-Versions 1 v vs l.numbered fits);
      bound = omega (
        arith,
        l.bound,
        length-mark_grace now (v ∷ vs),
        length-append {0} (mark_grace now (v ∷ vs)) (new_credential_version created n c ∷ []),
      );
    }

stays_active : (now : ℕ) (v : CredentialVersion) → v.status ≡ active → stays now v ≡ true
stays_active now v h = rw h refl

stays_grace : (now : ℕ) (v : CredentialVersion) → v.status ≡ grace → stays now v ≡ true
stays_grace now v h = rw h refl

-- No version is ever retired, so nothing goes in a cleanup.
all_stay : (now n : ℕ) (vs : List CredentialVersion) → Versions n vs → filter (stays now) vs ≡ vs
all_stay now n [] h = refl
all_stay now n (v ∷ []) h = rw (stays_active now v h.1) refl
all_stay now n (v ∷ w ∷ vs) h =
    rw (stays_grace now v h.1) (ap (λ l. v ∷ l) (all_stay now (suc n) (w ∷ vs) h.2))

clean-IsLine :
    (now k : ℕ) (m : Dict (List CredentialVersion)) → AllValues (IsLine k) m → clean now m ≡ (m, 0)
unfolding clean
clean-IsLine now k [] h = refl
clean-IsLine now k ((id, vs) ∷ m) h =
    rw (all_stay now 1 vs h.0.numbered)
      (rw (clean-IsLine now k m h.1) (ap (λ n. ((id, vs) ∷ m, n)) (omega arith)))

module _ (clock : RotationClock) (id : Text) (d : List ℕ) (reason : Text)
    (a : PluginAuthenticator) where
  rotate_unknown :
      Dict.lookup id a.credentials ≡ none → (rotate_credential clock id d reason a).0 ≡ a
  unfolding rotate_credential
  rotate_unknown h = rw (h, rotate_credential) refl

  rotate_known :
      (old : PluginCredential)
      → Dict.lookup id a.credentials ≡ some old
      → (rotate_credential clock id d reason a).0
        ≡ rotated clock id
            (renewed clock.issued id d old)
            reason
            (or_none (Dict.lookup id a.credential_versions))
            a
  unfolding rotate_credential
  rotate_known old h = rw (h, rotate_credential) refl

call-Lines :
    (k : ℕ) (c : Call) (a : PluginAuthenticator)
    → k + 1 < u32_mod
    → Lines k a
    → Lines (suc k) (call c a)
unfolding call rotate_credential cleanup_expired_credentials
call-Lines k (register now id t d role scopes) a f h = AllValues-weaken k a.credential_versions h
call-Lines k (assign id role) a f h = AllValues-weaken k a.credential_versions h
call-Lines k (revoke id) a f h = AllValues-weaken k a.credential_versions h
call-Lines k (rotate clock id d reason) a f h = elim (Option-cases (Dict.lookup id a.credentials)) [
  | inl unknown ↦
      subst (Lines (suc k)) (sym (rotate_unknown clock id d reason a unknown))
        (AllValues-weaken k a.credential_versions h)
  | inr (old, found) ↦ subst (Lines (suc k)) (sym (rotate_known clock id d reason a old found)) (
      AllValues-insert (IsLine (suc k)) id _ a.credential_versions
        (renewed-IsLine k clock.retiring clock.created (renewed clock.issued id d old)
          (Dict.lookup id a.credential_versions) f
          (λ vs e. AllValues-lookup (IsLine k) id vs a.credential_versions h e))
        (AllValues-weaken k a.credential_versions h))
]
call-Lines k (cleanup now) a f h =
    rw (clean-IsLine now k a.credential_versions h) (AllValues-weaken k a.credential_versions h)

calls-Lines :
    (k : ℕ) (cs : List Call) (a : PluginAuthenticator)
    → k + length cs < u32_mod
    → Lines k a
    → Lines (k + length cs) (calls cs a)
unfolding calls
calls-Lines k [] a f h = subst (λ n. Lines n a) (omega arith) h
calls-Lines k (c ∷ cs) a f h =
    subst (λ n. Lines n (calls cs (call c a))) (omega arith)
      (calls-Lines (suc k) cs (call c a) (omega arith) (call-Lines k c a (omega arith) h))

-- After any calls, fewer than 2 ^ 32, the versions of a plugin that was rotated are numbered from 1 on,
-- the last one is active, and those before it are in grace.
pub calls-Versions :
    (cs : List Call) (id : Text) (vs : List CredentialVersion)
    → length cs < u32_mod
    → Dict.lookup id (calls cs new_authenticator).credential_versions ≡ some vs
    → (0 < length vs) × Versions 1 vs
calls-Versions cs id vs f h =
    let a = calls cs new_authenticator in
    let lines : Lines (length cs) a =
      subst (λ n. Lines n a) (omega arith) (calls-Lines 0 cs new_authenticator (omega arith) tt) in
    let line = AllValues-lookup (IsLine (length cs)) id vs a.credential_versions lines h in
    (line.some_version, line.numbered)

-- A cleanup of the credentials, at any time after any calls, removes nothing: no version is ever
-- retired.
pub cleanup_expired_credentials-idle :
    (cs : List Call) (now : ℕ)
    → length cs < u32_mod
    → cleanup_expired_credentials now (calls cs new_authenticator) ≡ (calls cs new_authenticator, 0)
unfolding cleanup_expired_credentials
cleanup_expired_credentials-idle cs now f =
    let a = calls cs new_authenticator in
    rw
      (clean-IsLine now (0 + length cs) a.credential_versions
        (calls-Lines 0 cs new_authenticator (omega arith) tt))
      refl
