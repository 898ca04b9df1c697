-- ===== src/Workflow/Returns.antt =====
-- agent_control/workflow/scheduler.py: `run` returns on a workflow that `validate` accepts.
use freaky_monkey.Base.{
  ℕ, zero, suc, ◌+◌, String, Bool, true, false, Option, none, some, List, [], ◌∷◌, ◌≡◌, refl, sym,
  ap, ◌∙◌, subst, arith, All, any, ◌||◌, get_elem?, str_eq, eq_iff, inl, inr, Bool-cases,
  Option-cases, if◌then◌else◌, leb,
}
use freaky_monkey.Base.Dict.{contains, insert}
use freaky_monkey.Workflow.Status.{is_cancelled}
use freaky_monkey.Workflow.Model.{WorkflowStep}
use freaky_monkey.Workflow.Locks.{
  LockManager, release, IsConsistent, try_acquire, try_acquire-IsConsistent, release_lem,
}
use freaky_monkey.Workflow.Ready.{Result, ok, ◌>>=◌, ready_nodes, completed_ids, marked_steps}
use freaky_monkey.Workflow.Graph.{ids_of, validate}
use freaky_monkey.Workflow.Checked.{scan_total, every_dep_known, validate-IsSchedulable}
use freaky_monkey.Workflow.Run.{Environment, RunState, submit, dispatch, futures_from}
use freaky_monkey.Workflow.Rounds.{
  after_outcome, complete, complete_all, Next, leave, again, observe_cancel, after_round, set_steps,
  work, round_of, run_loop,
}
use freaky_monkey.Workflow.Lasting.{AllLast}
use freaky_monkey.Workflow.Progress.{YieldsGiven, round_of-AllLast}

-- Each dependency is the identifier of a node.
abbrev pub DepsKnown : List String → List WorkflowStep → Type 0
DepsKnown ids ss = All (λ s. All (λ d. contains ids d ≡ true) s.dependencies) ss

AllLast-ids : (ss ts : List WorkflowStep) → AllLast ss ts → ids_of ts ≡ ids_of ss
AllLast-ids [] [] h = refl
AllLast-ids (s ∷ ss) (t ∷ ts) h = cc (h.0.0, AllLast-ids ss ts h.1)
AllLast-ids [] (t ∷ ts) h = absurd h
AllLast-ids (s ∷ ss) [] h = absurd h

AllLast-DepsKnown :
    (ids : List String) (ss ts : List WorkflowStep)
    → AllLast ss ts
    → DepsKnown ids ss
    → DepsKnown ids ts
AllLast-DepsKnown ids [] [] h k = tt
AllLast-DepsKnown ids (s ∷ ss) (t ∷ ts) h k = (
  subst (All (λ d. contains ids d ≡ true)) (ap (λ p. p.1) (sym h.0.0)) k.0,
  AllLast-DepsKnown ids ss ts h.1 k.1,
)
AllLast-DepsKnown ids [] (t ∷ ts) h k = absurd h
AllLast-DepsKnown ids (s ∷ ss) [] h k = absurd h

submit-IsConsistent :
    (max n : ℕ) (locks : LockManager) (s : WorkflowStep)
    → IsConsistent locks
    → IsConsistent (submit max locks n s).0
unfolding submit
submit-IsConsistent max n locks s h =
    let taken = try_acquire-IsConsistent locks s.resource_key s.step_id h in
    elim (Bool-cases (leb max n)) [
      | inl full ↦ rw (full, submit) h
      | inr room ↦ elim (Bool-cases (try_acquire locks s.resource_key s.step_id).1) [
        | inl got ↦ rw (room, got, submit) taken
        | inr held ↦ rw (room, held, submit) taken
      ]
    ]

pub dispatch-IsConsistent :
    (max n : ℕ) (locks : LockManager) (ms : List (WorkflowStep × Bool))
    → IsConsistent locks
    → IsConsistent (dispatch max locks n ms).0
unfolding dispatch
dispatch-IsConsistent max n locks [] h = h
dispatch-IsConsistent max n locks ((s, false) ∷ ms) h = dispatch-IsConsistent max n locks ms h
dispatch-IsConsistent max n locks ((s, true) ∷ ms) h =
    dispatch-IsConsistent max (if (submit max locks n s).2 then n + 1 else n)
      (submit max locks n s).0 ms (submit-IsConsistent max n locks s h)

release_total :
    (m : LockManager) (r : Option String) (node : String)
    → IsConsistent m
    → (m' : LockManager) × (release m r node ≡ some m') × IsConsistent m'
unfolding release
release_total m none node h = (m, refl, h)
release_total m (some r) node h = elim (Bool-cases (str_eq r "")) [
  | inl empty ↦ (m, ground arith, h)
  | inr named ↦
      let (m', e, c, f) = release_lem m r node (λ p. absurd (ground (arith, eq_iff r ""))) h in
      (m', e, c)
]

-- The call returns a state whose locks are consistent.
abbrev Returns : Result RunState → Type 0
Returns r = (st : RunState) × (r ≡ ok st) × IsConsistent st.locks

module _ (env : Environment) (round : ℕ) where
  complete_total :
      (st : RunState) (i : ℕ) → IsConsistent st.locks → Returns (complete env round st i)
  unfolding complete
  complete_total st i h = elim (Option-cases (get_elem? st.workflow.steps i)) [
    | inl absent ↦ rw (absent, complete) (st, refl, h)
    | inr (s, found) ↦
        let o = env.executor round s in
        let (m', e, c) = release_total st.locks s.resource_key s.step_id h in
        rw (found, e, complete)
          (
            record {
              workflow = after_outcome st.workflow i s o;
              results = insert s.step_id o st.results;
              locks = m';
            },
            refl,
            c,
          )
  ]

  complete_all_total :
      (is : List ℕ) (st : RunState) → IsConsistent st.locks → Returns (complete_all env round st is)
  unfolding complete_all
  complete_all_total [] st h = (st, refl, h)
  complete_all_total (i ∷ is) st h =
      let (st1, e, c) = complete_total st i h in
      let (st2, e', c') = complete_all_total is st1 c in
      (st2, ap (λ r. r >>= λ st'. complete_all env round st' is) e ∙ e', c')

abbrev RoundReturns : Result (RunState × Next) → Type 0
RoundReturns r = (x : RunState × Next) × (r ≡ ok x) × IsConsistent x.0.locks

module _ (env : Environment) (max : ℕ) where
  work_total :
      (round : ℕ) (st : RunState) (ms : List (WorkflowStep × Bool))
      → IsConsistent st.locks
      → RoundReturns (work env max round st ms)
  unfolding work
  work_total round st ms h = elim (Bool-cases (any (λ m. m.1) ms)) [
    | inr none_ready ↦ rw (none_ready, work) (_, refl, h)
    | inl some_ready ↦ elim (Bool-cases (any (λ m. m.1) sent)) [
      | inr none_sent ↦ rw (some_ready, none_sent, work) (_, refl, locked)
      | inl some_sent ↦
          let (st2, e, c) =
            complete_all_total env round (env.arrival round (futures_from 0 sent)) sent_state
              locked in
          rw (some_ready, some_sent, work)
            (after_round (observe_cancel (env.interrupts round) st2), ap (then_after round) e, c)
    ]
  ]
    where
      sent : List (WorkflowStep × Bool)
      sent = (dispatch max st.locks 0 ms).1

      sent_state : RunState
      sent_state = record st {
        workflow = set_steps st.workflow (marked_steps sent);
        locks = (dispatch max st.locks 0 ms).0;
      }

      locked : IsConsistent (dispatch max st.locks 0 ms).0
      locked = dispatch-IsConsistent max 0 st.locks ms h

      then_after : ℕ → Result RunState → Result (RunState × Next)
      then_after round r =
          r >>= λ st''. ok (after_round (observe_cancel (env.interrupts round) st''))

  round_of_total :
      (round : ℕ) (st : RunState)
      → DepsKnown (ids_of st.workflow.steps) st.workflow.steps
      → IsConsistent st.locks
      → RoundReturns (round_of env max round st)
  unfolding round_of ready_nodes
  round_of_total round st known h =
      let seen = observe_cancel (env.cancels round) st in
      elim (Bool-cases (seen.workflow.cancel_requested || is_cancelled seen.workflow.status)) [
        | inl halted ↦ rw (halted, round_of) (_, refl, h)
        | inr going ↦
            let (ms, scanned) =
              scan_total seen.workflow.context (completed_ids seen.workflow.steps) []
                seen.workflow.steps known in
            let (x, e, c) = work_total round seen ms h in
            rw (going, round_of) (x, ap (λ r. r >>= work env max round seen) scanned ∙ e, c)
      ]

  loop_end :
      (left round : ℕ) (st1 : RunState) (next : Next) (y : RunState × Bool)
      → run_loop env max left round st1 ≡ ok y
      → (x : RunState × Bool) × ((elim next as (λ _. Result (RunState × Bool)) [
        | leave ↦ ok (st1, true)
        | again ↦ run_loop env max left round st1
      ])
          ≡ ok x)
  loop_end left round st1 leave y e = ((st1, true), refl)
  loop_end left round st1 again y e = (y, e)

  module _ (honest : YieldsGiven env) where
    run_loop_total :
        (left round : ℕ) (st : RunState)
        → DepsKnown (ids_of st.workflow.steps) st.workflow.steps
        → IsConsistent st.locks
        → (x : RunState × Bool) × (run_loop env max left round st ≡ ok x)
    unfolding run_loop
    run_loop_total zero round st known h = ((st, false), refl)
    run_loop_total (suc left) round st known h =
        let ((st1, next), e, c) = round_of_total round st known h in
        let kept = round_of-AllLast env honest max round st st1 next e in
        let ids = AllLast-ids st.workflow.steps st1.workflow.steps kept in
        let known1 =
          AllLast-DepsKnown (ids_of st.workflow.steps) st.workflow.steps st1.workflow.steps kept
            known in
        let (y, later) =
          run_loop_total left (round + 1) st1
            (subst (λ k. DepsKnown k st1.workflow.steps) (sym ids) known1) c in
        let (x, last) = loop_end left (round + 1) st1 next y later in (x, ap then_next e ∙ last)
      where
        then_next : Result (RunState × Next) → Result (RunState × Bool)
        then_next r = r >>= λ p. elim p.1 as (λ _. Result (RunState × Bool)) [
          | leave ↦ ok (p.0, true)
          | again ↦ run_loop env max left (round + 1) p.0
        ]

    -- On a workflow that `validate` accepts, with consistent locks, and when the futures that arrive
    -- are among those that were submitted: for every bound on the rounds, the loop of `run` gives a
    -- state. No read of a missing node and no release of another's lock ends it in an exception,
    -- whatever the executors answer or raise.
    pub run_loop-returns :
        (left : ℕ) (st : RunState)
        → validate st.workflow ≡ some (ok tt)
        → IsConsistent st.locks
        → (x : RunState × Bool) × (run_loop env max left 0 st ≡ ok x)
    run_loop-returns left st valid = run_loop_total left 0 st (
        every_dep_known st.workflow.steps st.workflow.steps
          (validate-IsSchedulable st.workflow valid).1)
