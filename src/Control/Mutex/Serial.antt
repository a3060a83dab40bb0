-- ===== src/Control/Mutex/Serial.antt =====
-- Handlers that overlap under the mutex come to what they come to one after another.
use kernel_io.Common.{
  ℕ, zero, suc, ◌≡◌, ◌≢◌, ◌↔◌, ◌⊎◌, inl, inr, refl, sym, ap, ◌∙◌, Option, none, some, List, [], ◌∷◌,
  get_elem?, set, get_elem?-set, get_elem?-set_ne, get_elem?-set_self, get_elem?-lt, replicate,
  length, done, Result, arith,
}
use mathlib.Core.Path.{subst}
use kernel_io.Kernel.{Kio}
use kernel_io.Control.{Outside, store}
use kernel_io.Control.Mutex.{
  Call, as_write, locked, Next, go_on, unlock_and_return, Place, calling, holding, returned,
  Callers, CallersStep, mutex_lock, inside, mutex_unlock, CallersReach, at_start, after,
}
use kernel_io.Control.Mutex.Rest.{rest_of, rest-body_step}

-- The handler of this index is among those that have had their turn, with this result.
abbrev pub Recorded : ℕ → Result ℕ → List (ℕ × Result ℕ) → Type 0
Recorded k r [] = ⊥
Recorded k r (turn ∷ turns) = (turn ≡ (k, r)) ⊎ Recorded k r turns

-- Each handler at most once, as a whole, on what the one before it has left; the latest first.
pub data InTurn (calls : List (Outside × Call)) (kio : Kio)
    : List (ℕ × Result ℕ) → Kio → Type 0 where
  nobody : InTurn calls kio [] kio
  then_stores :
      (k : ℕ) (o : Outside) (call : Call) (r : Result ℕ) {turns : List (ℕ × Result ℕ)} {s s' : Kio}
      → InTurn calls kio turns s
      → get_elem? calls k ≡ some (o, call)
      → ((r' : Result ℕ) → ¬ Recorded k r' turns)
      → store o (as_write call) s ≡ done (r, s')
      → InTurn calls kio ((k, r) ∷ turns) s'

-- Those that have returned are those that have had their turn.
abbrev pub Agrees : List (ℕ × Result ℕ) → List Place → Type 0
Agrees turns places =
    (j : ℕ) (r : Result ℕ) → (get_elem? places j ≡ some (returned r)) ↔ Recorded j r turns

-- The module as the latest turn left it, and the one that is under way, if any.
abbrev pub Current : List (Outside × Call) → (before kio : Kio) → List Place → Option ℕ → Type 0
Current calls before kio places none = before ≡ kio
Current calls before kio places (some k) =
    (o : Outside) × (call : Call) × (next : Next) × (get_elem? calls k ≡ some (o, call))
    × (get_elem? places k ≡ some (holding next))
    × (store o (as_write call) before ≡ rest_of o next kio)

pub record Serial (calls : List (Outside × Call)) (kio : Kio) (s : Callers) : Type 0 where
  pub turns : List (ℕ × Result ℕ)
  pub before : Kio
  pub in_turn : InTurn calls kio turns before
  pub agrees : Agrees turns s.places
  pub current : Current calls before s.kio s.places s.owner

set-Agrees :
    (turns : List (ℕ × Result ℕ)) (places : List Place) (k : ℕ) (p q : Place)
    → get_elem? places k ≡ some p
    → ((r : Result ℕ) → p ≢ returned r)
    → ((r : Result ℕ) → q ≢ returned r)
    → Agrees turns places
    → Agrees turns (set places k q)
set-Agrees turns places k p q at old new v j r = (
  λ e. elim (get_elem?-set places k q j e) [
    | inl (same, fresh) ↦ absurd (new r (sym fresh))
    | inr (apart, before) ↦ (v j r).0 before
  ],
  λ rec.
      let before = (v j r).1 rec in
      let apart : k ≢ j = λ same. old r (ground arith) in
      get_elem?-set_ne places k j q apart ∙ before,
)

turn-Agrees :
    (turns : List (ℕ × Result ℕ)) (places : List Place) (k : ℕ) (p : Place) (r : Result ℕ)
    → get_elem? places k ≡ some p
    → ((r' : Result ℕ) → p ≢ returned r')
    → Agrees turns places
    → Agrees ((k, r) ∷ turns) (set places k (returned r))
turn-Agrees turns places k p r at old v j r' = (
  λ e. elim (get_elem?-set places k (returned r) j e) [
    | inl (same, fresh) ↦ inl (cc)
    | inr (apart, before) ↦ inr ((v j r').0 before)
  ],
  λ rec. elim rec [
    | inl same ↦
        let stored = get_elem?-set_self places k (returned r) (get_elem?-lt places k at) in cc
    | inr earlier ↦
        let before = (v j r').1 earlier in
        let apart : k ≢ j = λ same. old r' (ground arith) in
        get_elem?-set_ne places k j (returned r) apart ∙ before
  ],
)

pub replicate-calling :
    (n j : ℕ) {p : Place} → get_elem? (replicate n calling) j ≡ some p → p ≡ calling
replicate-calling zero j e = cc
replicate-calling (suc n) zero e = cc
replicate-calling (suc n) (suc j) e = replicate-calling n j e

start-Agrees : (n : ℕ) → Agrees [] (replicate n calling)
start-Agrees n j r = (λ e. absurd (let idle = replicate-calling n j e in cc), λ rec. absurd rec)

-- What the owner is still to do is what is left of its turn.
owner_owes :
    (calls : List (Outside × Call)) (kio : Kio) (s : Callers) (k : ℕ) (o : Outside) (call : Call)
    (next : Next)
    → s.owner ≡ some k
    → get_elem? calls k ≡ some (o, call)
    → get_elem? s.places k ≡ some (holding next)
    → (v : Serial calls kio s) → store o (as_write call) v.before ≡ rest_of o next s.kio
owner_owes calls kio s k o call next owned called at v =
    let (o', call', next', called', at', owes) =
      subst (Current calls v.before s.kio s.places) owned v.current in
    let same_call : ◌≡◌ {A = Outside × Call} (o', call') (o, call) = ground arith in
    let same_next : next' ≡ next = ground arith in
    subst (λ n. store o (as_write call) v.before ≡ rest_of o n s.kio) same_next
      (subst (λ c. store c.0 (as_write c.1) v.before ≡ rest_of c.0 next' s.kio) same_call owes)

CallersStep-Serial :
    (calls : List (Outside × Call)) (kio : Kio) {s s' : Callers}
    → CallersStep calls s s'
    → Serial calls kio s
    → Serial calls kio s'
CallersStep-Serial calls kio {s} (mutex_lock k o call free called at) v = record {
  turns = v.turns;
  before = v.before;
  in_turn = v.in_turn;
  agrees = set-Agrees v.turns s.places k _ _ at (λ r e. cc) (λ r e. cc) v.agrees;
  current =
      let left = subst (Current calls v.before s.kio s.places) free v.current in
      (
        o,
        call,
        go_on (locked call),
        called,
        get_elem?-set_self s.places k _ (get_elem?-lt s.places k at),
        ap (store o (as_write call)) left,
      );
}
CallersStep-Serial calls kio {s} (inside k o call b next kio' owned called at run) v = record {
  turns = v.turns;
  before = v.before;
  in_turn = v.in_turn;
  agrees = set-Agrees v.turns s.places k _ _ at (λ r e. cc) (λ r e. cc) v.agrees;
  current = subst (Current calls v.before kio' (set s.places k (holding next))) (sym owned) (
    o,
    call,
    next,
    called,
    get_elem?-set_self s.places k _ (get_elem?-lt s.places k at),
    owner_owes calls kio s k o call (go_on b) owned called at v
        ∙ rest-body_step o b s.kio kio' next run,
  );
}
CallersStep-Serial calls kio {s} (mutex_unlock k r owned at) v =
    let (o, call, next, called, there, owes) =
      subst (Current calls v.before s.kio s.places) owned v.current in
    let stores = owner_owes calls kio s k o call (unlock_and_return r) owned called at v in
    record {
      turns = (k, r) ∷ v.turns;
      before = s.kio;
      in_turn =
          then_stores k o call r v.in_turn called (λ r' rec. let gone = (v.agrees k r').1 rec in cc)
            stores;
      agrees = turn-Agrees v.turns s.places k _ r at (λ r' e. cc) v.agrees;
      current = refl;
    }

pub CallersReach-Serial :
    (calls : List (Outside × Call)) (kio : Kio) {s : Callers}
    → CallersReach calls kio s
    → Serial calls kio s
CallersReach-Serial calls kio at_start = record {
  turns = [];
  before = kio;
  in_turn = nobody;
  agrees = start-Agrees (length calls);
  current = refl;
}
CallersReach-Serial calls kio (after r st) =
    CallersStep-Serial calls kio st (CallersReach-Serial calls kio r)

-- For any writes to num_threads, runtime_seconds and run_workload that are under way at the same
-- time, each of whose handlers takes the mutex, goes through its body in steps, and gives the
-- mutex back, in any order of the steps of all of them: whenever nobody holds the mutex, the
-- module is in the state that the whole handlers leave when they are called one after another,
-- each at most once, and the handlers called so are exactly those that have returned, with the
-- results that they have returned.
pub calls_take_turns :
    (calls : List (Outside × Call)) (kio : Kio) {s : Callers}
    → CallersReach calls kio s
    → s.owner ≡ none
    → (turns : List (ℕ × Result ℕ)) × InTurn calls kio turns s.kio
      × ((j : ℕ) (r : Result ℕ) → (get_elem? s.places j ≡ some (returned r)) ↔ Recorded j r turns)
calls_take_turns calls kio {s} reach free =
    let v = CallersReach-Serial calls kio reach in
    let left = subst (Current calls v.before s.kio s.places) free v.current in
    (v.turns, subst (InTurn calls kio v.turns) left v.in_turn, v.agrees)
