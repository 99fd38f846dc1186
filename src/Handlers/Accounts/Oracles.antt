-- ===== src/Handlers/Accounts/Oracles.antt =====
-- programs/fructus/src/lib.rs: what any sequence of instructions does to the oracle's account.
use fructus.Base.{
  ℕ, ◌≤◌, ◌<◌, ◌≡◌, refl, sym, ap, subst, ◌∙◌, ◌⊎◌, inl, inr, false, ◌&&◌, List, [], ◌∷◌, arith,
  ◌==◌, All,
}
use fructus.Errors.{Result, ok, err, FructusError, >>=-eq-ok}
use fructus.Errors.Steps.{ok-injective, require-eq-ok}
use fructus.Constants.{max_apy}
use fructus.State.{YieldOracle, apy_in_bounds, validate_version, update_message}
use fructus.Ed25519.{Instruction, verify_publisher_signature}
use fructus.Handlers.Oracle.{Verifier, update_apy, set_stale_window, set_publisher}
use fructus.Handlers.Accounts.{
  Account, Framework, Admin, admits_admin, admits_update_apy, admitted, admitted-eq-ok,
}

-- A call of one of the instructions that write the oracle, with its signer where it has one.
pub data OracleCall : Type 0 where
  updating : List Instruction → ℕ → ℕ → ℕ → OracleCall
  publishing : Account → ℕ → OracleCall
  widening : Account → ℕ → OracleCall

unfoldable pub call_oracle :
    Framework → Verifier → Account → YieldOracle → OracleCall → Result YieldOracle
call_oracle fw env info oracle (updating instructions now_slot apy version) =
    admitted (admits_update_apy fw (record { oracle = record { info = info; value = oracle } }))
      (update_apy env oracle info.key instructions now_slot apy version)
call_oracle fw env info oracle (publishing authority new_publisher) =
    admitted
      (admits_admin fw
        (record { oracle = record { info = info; value = oracle }; authority = authority }))
      (set_publisher oracle new_publisher)
call_oracle fw env info oracle (widening authority new_stale_after_slots) =
    admitted
      (admits_admin fw
        (record { oracle = record { info = info; value = oracle }; authority = authority }))
      (set_stale_window oracle new_stale_after_slots)

-- A call that fails changes nothing.
abbrev pub committed : YieldOracle → Result YieldOracle → YieldOracle
committed oracle (ok o) = o
committed oracle (err e) = oracle

unfoldable pub run_oracle :
    Framework → Verifier → Account → YieldOracle → List OracleCall → YieldOracle
unfolding call_oracle
run_oracle fw env info oracle [] = oracle
run_oracle fw env info oracle (call ∷ calls) =
    run_oracle fw env info (committed oracle (call_oracle fw env info oracle call)) calls

-- What no call changes, and what only grows.
pub record Advances (o o' : YieldOracle) : Type 0 where
  pub same_authority : o'.authority ≡ o.authority
  pub bounded : o'.apy ≤ max_apy
  pub newer : ((o'.version ≡ o.version) × (o'.apy ≡ o.apy)) ⊎ (o.version < o'.version)

Advances-refl : (o : YieldOracle) → o.apy ≤ max_apy → Advances o o
Advances-refl o h = record { same_authority = refl; bounded = h; newer = inl (refl, refl) }

Advances-trans : (a b c : YieldOracle) → Advances a b → Advances b c → Advances a c
Advances-trans a b c h k = record {
  same_authority = k.same_authority ∙ h.same_authority;
  bounded = k.bounded;
  newer = later h.newer k.newer;
}
  where
    later :
        ((b.version ≡ a.version) × (b.apy ≡ a.apy)) ⊎ (a.version < b.version)
        → ((c.version ≡ b.version) × (c.apy ≡ b.apy)) ⊎ (b.version < c.version)
        → ((c.version ≡ a.version) × (c.apy ≡ a.apy)) ⊎ (a.version < c.version)
    later (inl (p, q)) (inl (p1, q1)) = inl (p1 ∙ p, q1 ∙ q)
    later (inl (p, q)) (inr p1) = inr (omega arith)
    later (inr p) (inl (p1, q1)) = inr (omega arith)
    later (inr p) (inr p1) = inr (omega arith)

-- An `update_apy` that goes through: the rate is in its bounds, the publisher in force has signed the
-- message of the oracle, the rate and the version, and the version is newer.
pub update_apy-eq-ok :
    (env : Verifier) (o : YieldOracle) (key : ℕ) (instructions : List Instruction)
    (now_slot apy version : ℕ) {o' : YieldOracle}
    → update_apy env o key instructions now_slot apy version ≡ ok o'
    → (apy ≤ max_apy)
      × (verify_publisher_signature env.ed25519_program instructions
            (env.to_bytes o.publisher)
            (update_message env.sha256 (env.to_bytes key) apy version)
          ≡ ok tt)
      × (o.version < version)
      × (o' ≡ record o { apy = apy; version = version; last_update_slot = now_slot })
unfolding update_apy apy_in_bounds validate_version
update_apy-eq-ok env o key instructions now_slot apy version e =
    let (h1, e1) = require-eq-ok (apy_in_bounds apy) FructusError.apy_too_high _ e in
    let (x, h2, e2) =
      >>=-eq-ok
        (verify_publisher_signature env.ed25519_program instructions (env.to_bytes o.publisher)
          (update_message env.sha256 (env.to_bytes key) apy version))
        _ e1 in
    let (y, h3, e3) = >>=-eq-ok (validate_version o.version version) _ e2 in
    (ground arith, h2, ground arith, sym (ok-injective e3))

call_oracle-Advances :
    (fw : Framework) (env : Verifier) (info : Account) (o : YieldOracle) (call : OracleCall)
    {o' : YieldOracle}
    → o.apy ≤ max_apy
    → call_oracle fw env info o call ≡ ok o'
    → Advances o o'
unfolding call_oracle set_publisher set_stale_window
call_oracle-Advances fw env info o (updating instructions now_slot apy version) h e =
    let (k, e1) = admitted-eq-ok _ _ e in
    let (k1, k2, k3, k4) = update_apy-eq-ok env o info.key instructions now_slot apy version e1 in
    subst (Advances o) (sym k4) (record { same_authority = refl; bounded = k1; newer = inr k3 })
call_oracle-Advances fw env info o (publishing authority publisher) h e =
    let (k, e1) = admitted-eq-ok _ _ e in
    subst (Advances o) (ok-injective e1)
      (record { same_authority = refl; bounded = h; newer = inl (refl, refl) })
call_oracle-Advances fw env info o (widening authority window) h e =
    let (k, e1) = admitted-eq-ok _ _ e in
    subst (Advances o) (ok-injective e1)
      (record { same_authority = refl; bounded = h; newer = inl (refl, refl) })

committed-Advances :
    (fw : Framework) (env : Verifier) (info : Account) (o : YieldOracle) (call : OracleCall)
    → o.apy ≤ max_apy
    → Advances o (committed o (call_oracle fw env info o call))
committed-Advances fw env info o call h = by_result (call_oracle fw env info o call) refl
  where
    by_result :
        (r : Result YieldOracle) → call_oracle fw env info o call ≡ r → Advances o (committed o r)
    by_result (ok o') e = call_oracle-Advances fw env info o call h e
    by_result (err er) e = Advances-refl o h

-- Whatever calls the oracle gets, from whomever, and whichever of them fail: its rate stays in its bounds,
-- its authority is the one it was created with, its version never falls, and its rate is another one only
-- under a newer version.
pub run_oracle-Advances :
    (fw : Framework) (env : Verifier) (info : Account) (o : YieldOracle) (calls : List OracleCall)
    → o.apy ≤ max_apy
    → Advances o (run_oracle fw env info o calls)
unfolding run_oracle
run_oracle-Advances fw env info o [] h = Advances-refl o h
run_oracle-Advances fw env info o (call ∷ calls) h =
    let o1 : YieldOracle = committed o (call_oracle fw env info o call) in
    let k : Advances o o1 = committed-Advances fw env info o call h in
    Advances-trans o o1 (run_oracle fw env info o1 calls) k
      (run_oracle-Advances fw env info o1 calls k.bounded)

-- No update is replayed: behind an update that went through with `version`, whatever calls come between,
-- only an update with a newer version goes through.
pub updating_once :
    (fw : Framework) (env : Verifier) (info : Account) (o : YieldOracle)
    (instructions : List Instruction) (now_slot apy version : ℕ) (calls : List OracleCall)
    (instructions' : List Instruction) (now_slot' apy' version' : ℕ) {o1 o2 : YieldOracle}
    → o.apy ≤ max_apy
    → call_oracle fw env info o (updating instructions now_slot apy version) ≡ ok o1
    → call_oracle fw env info
        (run_oracle fw env info o1 calls)
        (updating instructions' now_slot' apy' version')
      ≡ ok o2
    → version < version'
unfolding call_oracle
updating_once fw env info o instructions now_slot apy version calls instructions' now_slot' apy'
      version' {o1} h e e1 =
    let (k, f) =
      admitted-eq-ok (admits_update_apy fw (record { oracle = record { info = info; value = o } }))
        (update_apy env o info.key instructions now_slot apy version) e in
    let (k1, k2, k3, k4) = update_apy-eq-ok env o info.key instructions now_slot apy version f in
    let same : o1.version ≡ version = ap (λ x. x.version) k4 in
    let bounded : o1.apy ≤ max_apy = subst (λ x. x.apy ≤ max_apy) (sym k4) k1 in
    let o3 : YieldOracle = run_oracle fw env info o1 calls in
    let a : Advances o1 o3 = run_oracle-Advances fw env info o1 calls bounded in
    let (k5, f1) =
      admitted-eq-ok (admits_update_apy fw (record { oracle = record { info = info; value = o3 } }))
        (update_apy env o3 info.key instructions' now_slot' apy' version') e1 in
    let (k6, k7, k8, k9) =
      update_apy-eq-ok env o3 info.key instructions' now_slot' apy' version' f1 in
    elim a.newer [ inl p ↦ omega (arith, p.0, k8, same) | inr p ↦ omega (arith, p, k8, same) ]

-- A call that the authority has not signed.
abbrev pub Unsigned : ℕ → OracleCall → Type 0
Unsigned authority (updating instructions now_slot apy version) = Unit
Unsigned authority (publishing a publisher) = (a.key == authority && a.is_signer) ≡ false
Unsigned authority (widening a window) = (a.key == authority && a.is_signer) ≡ false

-- The publisher and the stale window of an oracle.
abbrev pub Configured : YieldOracle → YieldOracle → Type 0
Configured o o' =
    (o'.publisher ≡ o.publisher)
    × (o'.stale_after_slots ≡ o.stale_after_slots)
    × (o'.authority ≡ o.authority)

call_oracle-Configured :
    (fw : Framework) (env : Verifier) (info : Account) (o : YieldOracle) (call : OracleCall)
    {o' : YieldOracle}
    → Unsigned o.authority call
    → call_oracle fw env info o call ≡ ok o'
    → Configured o o'
unfolding call_oracle admits_admin
call_oracle-Configured fw env info o (updating instructions now_slot apy version) u e =
    let (k, e1) = admitted-eq-ok _ _ e in
    let (k1, k2, k3, k4) = update_apy-eq-ok env o info.key instructions now_slot apy version e1 in
    subst (Configured o) (sym k4) (refl, refl, refl)
call_oracle-Configured fw env info o (publishing authority publisher) u e =
    let c : Admin = record { oracle = record { info = info; value = o }; authority = authority } in
    let (k, e1) = admitted-eq-ok (admits_admin fw c) (set_publisher o publisher) e in
    absurd (ground (arith, k, u))
call_oracle-Configured fw env info o (widening authority window) u e =
    let c : Admin = record { oracle = record { info = info; value = o }; authority = authority } in
    let (k, e1) = admitted-eq-ok (admits_admin fw c) (set_stale_window o window) e in
    absurd (ground (arith, k, u))

-- Only the authority configures the oracle: calls none of which it has signed, in any number and order,
-- leave the publisher and the stale window as they are.
pub run_oracle-Configured :
    (fw : Framework) (env : Verifier) (info : Account) (o : YieldOracle) (calls : List OracleCall)
    → All (Unsigned o.authority) calls
    → Configured o (run_oracle fw env info o calls)
unfolding run_oracle
run_oracle-Configured fw env info o [] u = (refl, refl, refl)
run_oracle-Configured fw env info o (call ∷ calls) u =
    let (k, k1, k2) = by_result (call_oracle fw env info o call) refl in
    let o1 : YieldOracle = committed o (call_oracle fw env info o call) in
    let (h, h1, h2) =
      run_oracle-Configured fw env info o1 calls
        (subst (λ a. All (Unsigned a) calls) (sym k2) u.1) in
    (h ∙ k, h1 ∙ k1, h2 ∙ k2)
  where
    by_result :
        (r : Result YieldOracle) → call_oracle fw env info o call ≡ r → Configured o (committed o r)
    by_result (ok o') e = call_oracle-Configured fw env info o call u.0 e
    by_result (err er) e = (refl, refl, refl)
