-- ===== src/WorkTrigger/History.antt =====
-- The trigger against its specification: the signals that have arrived since the last fresh lookup.
use wallet_daemon.Base.{
  ℕ, suc, ◌+◌, min, ◌≡◌, refl, Bool, true, false, not, Option, none, some, List, [], ◌∷◌, arith,
  is_empty,
}
use wallet_daemon.WorkTrigger.{
  TriggerState, Signal, event, forcing, signal, new, begin_fresh_lookup, finish_batch,
  finish_empty_lookup, generation_moved, event_trigger_limit, event_debounce,
}

-- The signals since the last fresh lookup, newest first, each with its time.
abbrev pub Outstanding : Type 0
Outstanding = List (ℕ × Signal)

abbrev pub count_events : Outstanding → ℕ
count_events [] = 0
count_events ((t, event) ∷ h) = suc (count_events h)
count_events ((t, forcing) ∷ h) = count_events h

abbrev pub any_forcing : Outstanding → Bool
any_forcing [] = false
any_forcing ((t, event) ∷ h) = any_forcing h
any_forcing ((t, forcing) ∷ h) = true

abbrev pub last_deadline : Outstanding → Option ℕ
last_deadline [] = none
last_deadline ((t, event) ∷ h) = some (t + event_debounce)
last_deadline ((t, forcing) ∷ h) = last_deadline h

-- The state says of the outstanding signals: how many events, up to 25; whether one was a force;
-- when the quiet time after the last event ends; and, while none has arrived, the same generation as
-- the lookup in progress, if there is one.
pub record Represents (h : Outstanding) (s : TriggerState) : Type 0 where
  pub counted : s.pending_event_count ≡ min (count_events h) event_trigger_limit
  pub force_seen : s.forced ≡ any_forcing h
  pub deadline : s.debounce_deadline ≡ last_deadline h
  pub lookup_current : h ≡ [] → generation_moved s.lookup_generation s.event_generation ≡ false

-- The calls of a worker and the signals of the other tasks.
pub data Op : Type 0 where
  signalled : ℕ → Signal → Op
  begins : Op
  finishes : Bool → Op
  finishes_empty : Op

abbrev pub apply : Op → TriggerState → TriggerState
apply (signalled t sig) s = signal t sig s
apply begins s = begin_fresh_lookup s
apply (finishes complete) s = (finish_batch complete s).0
apply finishes_empty s = finish_empty_lookup s

abbrev pub outstanding : Op → Outstanding → Outstanding
outstanding (signalled t sig) h = (t, sig) ∷ h
outstanding begins h = []
outstanding _ h = h

abbrev pub run : List Op → TriggerState → TriggerState
run [] s = s
run (o ∷ os) s = run os (apply o s)

abbrev pub run_outstanding : List Op → Outstanding → Outstanding
run_outstanding [] h = h
run_outstanding (o ∷ os) h = run_outstanding os (outstanding o h)

pub apply-Represents :
    (o : Op) (h : Outstanding) (s : TriggerState)
    → Represents h s
    → Represents (outstanding o h) (apply o s)
unfolding signal begin_fresh_lookup finish_batch finish_empty_lookup
apply-Represents (signalled t event) h s r = record {
  counted = ground arith;
  force_seen = ground arith;
  deadline = refl;
  lookup_current = λ e. cc;
}
apply-Represents (signalled t forcing) h s r = record {
  counted = ground arith;
  force_seen = refl;
  deadline = ground arith;
  lookup_current = λ e. cc;
}
apply-Represents begins h s r = record {
  counted = omega arith;
  force_seen = refl;
  deadline = refl;
  lookup_current = λ _. ground arith;
}
apply-Represents (finishes c) h s r = record {
  counted = r.counted;
  force_seen = r.force_seen;
  deadline = r.deadline;
  lookup_current = λ e. ground (arith, r.lookup_current e);
}
apply-Represents finishes_empty h s r = record {
  counted = r.counted;
  force_seen = r.force_seen;
  deadline = r.deadline;
  lookup_current = λ _. refl;
}

run-Represents :
    (os : List Op) (h : Outstanding) (s : TriggerState)
    → Represents h s
    → Represents (run_outstanding os h) (run os s)
run-Represents [] h s r = r
run-Represents (o ∷ os) h s r = run-Represents os _ _ (apply-Represents o h s r)

new-Represents : Represents [] new
new-Represents = record {
  counted = refl;
  force_seen = refl;
  deadline = refl;
  lookup_current = λ _. refl;
}

-- After any history of a new trigger, its state is the summary of the signals that arrived since
-- the last fresh lookup began: none is lost, and no earlier one is kept.
pub run-new-Represents : (os : List Op) → Represents (run_outstanding os []) (run os new)
run-new-Represents os = run-Represents os [] new new-Represents

deferred_of-Represents :
    (complete : Bool) (h : Outstanding) (s : TriggerState)
    → Represents h s
    → (finish_batch complete s).1 ≡ not (is_empty h)
unfolding finish_batch
deferred_of-Represents c [] s r = ground (arith, r.lookup_current refl)
deferred_of-Represents c ((t, event) ∷ h) s r = ground arith
deferred_of-Represents c ((t, forcing) ∷ h) s r = ground arith

-- After any history, a batch reports deferred work exactly when some event or force has arrived
-- since the last fresh lookup began. This holds for any number of events, also when the generation
-- counter has wrapped round to its old value.
pub finish_batch_deferred :
    (complete : Bool) (os : List Op)
    → (finish_batch complete (run os new)).1 ≡ not (is_empty (run_outstanding os []))
finish_batch_deferred c os = deferred_of-Represents c _ _ (run-new-Represents os)
