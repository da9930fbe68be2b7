-- ===== src/Integration/Pipeline.antt =====
-- A message on its way through a chain of interceptors.
use dstate.Base.{◌≡◌, refl, List, [], ◌∷◌, ◌++◌, map}
use dstate.Types.Envelope.{NodeId}
use dstate.Types.Message.{Bytes}
use dstate.Integration.Interceptor.{InterceptAction, deliver, InterceptContext, NetworkInterceptor}
use dstate.Integration.Transport.{
  MockTransport, Sorted, intercept_pending, intercept_all, apply_interceptors, queued_all,
  send_bytes,
}

abbrev pub nothing : Sorted
nothing = record { next_pending = []; finalized = [] }

module _ (from to : NodeId) (context : InterceptContext) where
  -- Where nothing is pending, nothing happens.
  pub all_nothing :
      (interceptors : List NetworkInterceptor)
      → (intercept_all from to context [] interceptors).1 ≡ nothing
  unfolding intercept_all intercept_pending
  all_nothing [] = refl
  all_nothing (i ∷ interceptors) = all_nothing interceptors

-- The context of the next message.
abbrev pub context_of : MockTransport → InterceptContext
context_of t = record {
  current_tick = t.current_tick;
  message_id = t.message_counter;
  rng_seed = t.rng_seed;
}

-- The actions for a message over the interceptors `l`.
abbrev pub actions_of :
    NodeId → NodeId → InterceptContext → Bytes → List NetworkInterceptor → List InterceptAction
actions_of from to context bytes l =
    let r = intercept_all from to context (bytes ∷ []) l in
    r.1.finalized ++ map deliver r.1.next_pending

-- What is sent goes through all the interceptors, also where there is none.
pub sent_through :
    (from to : NodeId) (bytes : Bytes) (l : List NetworkInterceptor) (t : MockTransport)
    → t.interceptors ≡ l
    → (send_bytes from to bytes t).in_flight
      ≡ t.in_flight ++ queued_all from to t.current_tick (actions_of from to (context_of t) bytes l)
unfolding send_bytes apply_interceptors intercept_all
sent_through from to bytes [] t h = rw h refl
sent_through from to bytes (i ∷ l) t h = rw h refl
