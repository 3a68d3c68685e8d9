-- ===== src/WorkTrigger/Delivery.antt =====
-- src/work_trigger.rs: the signals that other tasks deliver while a worker awaits something, and when
-- the trigger has work left.
use wallet_daemon.Base.{
  ◌<◌, ◌≡◌, ◌⊎◌, inl, inr, Bool, true, false, [], ◌∷◌, arith, Bool-cases, if◌then◌else◌, ltb,
}
use wallet_daemon.WorkTrigger.{
  TriggerState, event, forcing, signal, begin_fresh_lookup, finish_batch, generation_moved,
}
use wallet_daemon.WorkTrigger.Wait.{Schedule}

unfoldable pub deliver : Schedule → TriggerState → TriggerState
deliver [] s = s
deliver ((t, sig) ∷ rest) s = deliver rest (signal t sig s)

-- An event or a force has arrived since the last fresh lookup.
abbrev pub HasWork : TriggerState → Type 0
HasWork s = (s.forced ≡ true) ⊎ (0 < s.pending_event_count)

-- While nothing has arrived, the lookup's generation is the current one.
abbrev pub Settled : TriggerState → Type 0
Settled s =
    s.forced ≡ false
    → s.pending_event_count ≡ 0
    → generation_moved s.lookup_generation s.event_generation ≡ false

pub deliver-Settled :
    (signals : Schedule) (s : TriggerState) → Settled s → Settled (deliver signals s)
unfolding deliver signal
deliver-Settled [] s h = h
deliver-Settled ((t, event) ∷ rest) s h = deliver-Settled rest _ (λ f z. absurd (ground arith))
deliver-Settled ((t, forcing) ∷ rest) s h = deliver-Settled rest _ (λ f z. cc)

pub deferred-HasWork :
    (complete : Bool) (s : TriggerState)
    → Settled s
    → (finish_batch complete s).1 ≡ true
    → HasWork (finish_batch complete s).0
unfolding finish_batch
deferred-HasWork complete s h e = elim (Bool-cases s.forced) [
  | inl f ↦ inl f
  | inr f ↦ elim (Bool-cases (ltb 0 s.pending_event_count)) [
    | inl some_pending ↦ inr (ground arith)
    | inr none_pending ↦ absurd (ground (arith, h f (ground arith)))
  ]
]

pub if_Settled :
    (b : Bool) (s t : TriggerState) → Settled s → Settled t → Settled (if b then s else t)
if_Settled true s t hs ht = hs
if_Settled false s t hs ht = ht

pub begin_fresh_lookup-Settled : (s : TriggerState) → Settled (begin_fresh_lookup s)
unfolding begin_fresh_lookup
begin_fresh_lookup-Settled s f z = ground arith
