-- ===== src/AgentCommand/Steps.antt =====
-- What the loop of the agent does with what its polls answer.
use mathlib.Core.List.{Memᴰ}
use enclout.Prelude.{
  List, [], ◌∷◌, ◌++◌, map, ◌≡◌, refl, ap, inl, inr, Memᴰ-cases, map_append, arith, sym,
}
use enclout.Requests.Model.{Time}
use enclout.Verify.Types.{ok, err, Crypto}
use enclout.Trust.{Fetch}
use enclout.Flow.{Request, Run}
use enclout.AgentCommand.{Settings}
use enclout.AgentCommand.Polling.{
  PendingRequest, World, Event, stops, ticks, Step, poll_failed, processed, request_of, process_all,
  poll_loop,
}

-- The requests that the polls answer before the agent stops.
unfoldable pub polled : List Event → List PendingRequest
polled [] = []
polled (stops ∷ events) = []
polled (ticks (err e) ∷ events) = polled events
polled (ticks (ok pending) ∷ events) = map (λ p. p.0) pending ++ polled events

-- The requests that are processed in some steps.
unfoldable pub requests_of : List Step → List Request
requests_of [] = []
requests_of (poll_failed e ∷ steps) = requests_of steps
requests_of (processed req run ∷ steps) = req ∷ requests_of steps

requests_of-append : (a b : List Step) → requests_of (a ++ b) ≡ requests_of a ++ requests_of b
unfolding requests_of
requests_of-append [] b = refl
requests_of-append (poll_failed e ∷ a) b = requests_of-append a b
requests_of-append (processed req run ∷ a) b = ap (λ l. req ∷ l) (requests_of-append a b)

processed-requests_of :
    (steps : List Step) (req : Request) (run : Run)
    → Memᴰ (processed req run) steps
    → Memᴰ req (requests_of steps)
unfolding requests_of
processed-requests_of [] req run h = elim h [ ]
processed-requests_of (poll_failed e ∷ steps) req run h = elim (Memᴰ-cases h) [
  | inl other ↦ absurd (ground arith)
  | inr later ↦ processed-requests_of steps req run later
]
processed-requests_of (processed q r ∷ steps) req run h = elim (Memᴰ-cases h) [
  | inl same ↦ Memᴰ.head cc
  | inr later ↦ Memᴰ.tail (processed-requests_of steps req run later)
]

module _ (crypto : Crypto) (settings : Settings) (started : Time) where
  requests_of-process_all :
      (pending : List (PendingRequest × World)) (past : List Fetch)
      → requests_of (process_all crypto settings started pending past).0
        ≡ map (request_of crypto settings started) (map (λ p. p.0) pending)
  unfolding requests_of process_all
  requests_of-process_all [] past = refl
  requests_of-process_all ((p, w) ∷ pending) past =
      ap (λ l. request_of crypto settings started p ∷ l) (requests_of-process_all pending _)

  -- Every request that a poll answers is processed, once and in the order of the answers, whatever
  -- comes of the requests before it and of other polls; and none is after the agent has stopped.
  pub poll_loop-processes :
      (events : List Event) (past : List Fetch)
      → requests_of (poll_loop crypto settings started events past)
        ≡ map (request_of crypto settings started) (polled events)
  unfolding poll_loop polled requests_of
  poll_loop-processes [] past = refl
  poll_loop-processes (stops ∷ events) past = refl
  poll_loop-processes (ticks (err e) ∷ events) past = poll_loop-processes events past
  poll_loop-processes (ticks (ok pending) ∷ events) past =
      rw
        (
          requests_of-append (process_all crypto settings started pending past).0 (
              poll_loop crypto settings started events
                (process_all crypto settings started pending past).1),
          requests_of-process_all pending past,
          poll_loop-processes events (process_all crypto settings started pending past).1,
        )
        (sym (
          map_append (request_of crypto settings started) (map (λ p. p.0) pending) (polled events)))
