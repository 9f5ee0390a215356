-- ===== src/AgentCommand/Runs.antt =====
-- Each run of the loop of the agent: of which request, in which world, and after which calls of the
-- keyset source.
use mathlib.Core.List.{Memᴰ}
use enclout.Prelude.{
  Bool, true, false, some, List, [], ◌∷◌, ◌++◌, map, ◌≡◌, refl, ap, sym, subst, ◌∙◌, ◌⊎◌, inl, inr,
  arith, Memᴰ-cases, Memᴰ-append_cases, Memᴰ-append_left, Memᴰ-append_right, append_assoc,
  map_append,
}
use enclout.Requests.Model.{Time}
use enclout.Verify.Types.{ok, err, Crypto}
use enclout.Trust.{Fetch}
use enclout.Flow.{Request, Run, process}
use enclout.Flow.Attested.{runner_of}
use enclout.AgentCommand.{Settings}
use enclout.AgentCommand.Polling.{
  PendingRequest, World, Event, stops, ticks, processed, request_of, agent_of, with_call,
  process_all, poll_loop,
}

abbrev pub Polled : Type 0
Polled = PendingRequest × World

-- The requests that the polls answer before the agent stops, with what the world answers to each.
unfoldable pub polled_with : List Event → List Polled
polled_with [] = []
polled_with (stops ∷ events) = []
polled_with (ticks (err e) ∷ events) = polled_with events
polled_with (ticks (ok pending) ∷ events) = pending ++ polled_with events

-- The call of the keyset source that a run makes if it comes to it.
abbrev pub fetch_of : Polled → Fetch
fetch_of (pending, w) = record { at = w.now; answer = some w.fetch }

-- A call from before, or one of a run of these requests.
abbrev Known : List Fetch → List Polled → Fetch → Type 0
Known past requests f = Memᴰ f past ⊎ Memᴰ f (map fetch_of requests)

module _ (crypto : Crypto) (settings : Settings) (started : Time) where
  -- A run of the loop, which begins after the calls `before` and has these requests to process.
  pub record IsRun (before : List Fetch) (requests : List Polled) (req : Request) (run : Run)
      : Type 0 where
    pub pending : PendingRequest
    pub world : World
    pub earlier : List Polled
    pub later : List Polled
    pub order : requests ≡ earlier ++ ((pending, world) ∷ later)
    pub past : List Fetch
    pub history : (f : Fetch) → Memᴰ f past → Known before earlier f
    pub request : req ≡ request_of crypto settings started pending
    pub outcome : run ≡ process crypto (runner_of (agent_of crypto settings started past world)) req

  widened :
      (before : List Fetch) (requests more : List Polled) (req : Request) (run : Run)
      → IsRun before requests req run
      → IsRun before (requests ++ more) req run
  widened before requests more req run r = record {
    pending = r.pending;
    world = r.world;
    earlier = r.earlier;
    later = r.later ++ more;
    order =
        ap (λ l. l ++ more) r.order ∙ append_assoc r.earlier ((r.pending, r.world) ∷ r.later) more;
    past = r.past;
    history = r.history;
    request = r.request;
    outcome = r.outcome;
  }

  Known-shift :
      (before between : List Fetch) (first earlier : List Polled)
      → ((f : Fetch) → Memᴰ f between → Known before first f)
      → (f : Fetch) → Known between earlier f
      → Known before (first ++ earlier) f
  Known-shift before between first earlier known f (inl h) = elim (known f h) [
    | inl old ↦ inl old
    | inr new ↦ inr (
        subst (Memᴰ f) (sym (map_append fetch_of first earlier))
          (Memᴰ-append_left (map fetch_of first) (map fetch_of earlier) new))
  ]
  Known-shift before between first earlier known f (inr h) = inr (
      subst (Memᴰ f) (sym (map_append fetch_of first earlier))
        (Memᴰ-append_right (map fetch_of first) (map fetch_of earlier) h))

  shifted :
      (before between : List Fetch) (first requests : List Polled) (req : Request) (run : Run)
      → ((f : Fetch) → Memᴰ f between → Known before first f)
      → IsRun between requests req run
      → IsRun before (first ++ requests) req run
  shifted before between first requests req run known r = record {
    pending = r.pending;
    world = r.world;
    earlier = first ++ r.earlier;
    later = r.later;
    order =
        ap (λ l. first ++ l) r.order
        ∙ sym (append_assoc first r.earlier ((r.pending, r.world) ∷ r.later));
    past = r.past;
    history = λ f h. Known-shift before between first r.earlier known f (r.history f h);
    request = r.request;
    outcome = r.outcome;
  }

  with_call-Known :
      (asked : Bool) (past : List Fetch) (p : PendingRequest) (w : World) (f : Fetch)
      → Memᴰ f (with_call crypto settings started asked (agent_of crypto settings started past w))
      → Known past ((p, w) ∷ []) f
  with_call-Known false past p w f h = inl h
  with_call-Known true past p w f h = Memᴰ-append_cases past _ h

  process_all-Known :
      (pending : List Polled) (past : List Fetch) (f : Fetch)
      → Memᴰ f (process_all crypto settings started pending past).1
      → Known past pending f
  unfolding process_all
  process_all-Known [] past f h = inl h
  process_all-Known ((p, w) ∷ pending) past f h =
      Known-shift past _ ((p, w) ∷ []) pending (with_call-Known _ past p w) f
        (process_all-Known pending _ f h)

  processed_all-IsRun :
      (pending : List Polled) (past : List Fetch) (req : Request) (run : Run)
      → Memᴰ (processed req run) (process_all crypto settings started pending past).0
      → IsRun past pending req run
  unfolding process_all
  processed_all-IsRun [] past req run h = elim h [ ]
  processed_all-IsRun ((p, w) ∷ pending) past req run h = elim (Memᴰ-cases h) [
    | inl same ↦ record {
      pending = p;
      world = w;
      earlier = [];
      later = pending;
      order = refl;
      past = past;
      history = λ f k. inl k;
      request = cc;
      outcome = cc;
    }
    | inr later ↦
        shifted past _ ((p, w) ∷ []) pending req run (with_call-Known _ past p w)
          (processed_all-IsRun pending _ req run later)
  ]

  pub processed-IsRun :
      (events : List Event) (past : List Fetch) (req : Request) (run : Run)
      → Memᴰ (processed req run) (poll_loop crypto settings started events past)
      → IsRun past (polled_with events) req run
  unfolding poll_loop polled_with
  processed-IsRun [] past req run h = elim h [ ]
  processed-IsRun (stops ∷ events) past req run h = elim h [ ]
  processed-IsRun (ticks (err e) ∷ events) past req run h = elim (Memᴰ-cases h) [
    | inl other ↦ absurd (ground arith)
    | inr later ↦ processed-IsRun events past req run later
  ]
  processed-IsRun (ticks (ok pending) ∷ events) past req run h =
      elim (Memᴰ-append_cases (process_all crypto settings started pending past).0 _ h) [
        | inl here ↦
            widened past pending (polled_with events) req run
              (processed_all-IsRun pending past req run here)
        | inr later ↦
            shifted past (process_all crypto settings started pending past).1 pending
              (polled_with events) req run (process_all-Known pending past)
              (processed-IsRun events _ req run later)
      ]
