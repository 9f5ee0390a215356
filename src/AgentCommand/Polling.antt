-- ===== src/AgentCommand/Polling.antt =====
-- The loop of services/local-agent/cmd/agent/main.go: a poll at each tick, and a run of the flow for
-- each request that it answers.
--
-- The prompts, the services, the key manager and the clock are the record `World`, one for each
-- request; the calls of the keyset source so far are the state of the loop. What `select` chooses is
-- the list of events.
use enclout.Prelude.{
  String, Bool, true, false, Option, none, some, List, [], ◌∷◌, ◌++◌, if◌then◌else◌,
}
use enclout.Requests.Model.{Time}
use enclout.Verify.Types.{GoError, Answer, ok, err, Crypto}
use enclout.Verify.Dcap.{DcapVerifyResponse}
use enclout.Prelude.{ℕ}
use enclout.Approval.{Prompter}
use enclout.Trust.{SigningKeyset, Fetch}
use enclout.Flow.{SignedBundle, Request, Runner, Run, process, summary_of}
use enclout.Flow.Attested.{Agent, runner_of, this_call}
use enclout.AgentCommand.{Settings}

-- Request of services/local-agent/internal/api/client.go
pub record PendingRequest : Type 0 where
  pub id : String
  pub connector_id : String
  pub device_id : String
  pub openclaw_user_id : String

pub record World : Type 0 where
  pub prompter : Prompter
  pub dcap_service : String → Answer (ℕ × Option DcapVerifyResponse)
  pub now : Time
  pub fetch : Answer SigningKeyset
  pub post_local_decision : String → Bool → Option GoError
  pub get_attestation_bundle : String → Answer SignedBundle
  pub post_result : String → String → String → Option GoError
  pub install : String → String → Option GoError

pub data Event : Type 0 where
  stops : Event
  ticks : Answer (List (PendingRequest × World)) → Event

-- What the loop does: a poll that fails is logged, and so is the error of a run.
pub data Step : Type 0 where
  poll_failed : GoError → Step
  processed : Request → Run → Step

-- Whether a run comes to ask the source for its keys.
abbrev pub comes_to_keys : Runner → Request → Bool
comes_to_keys r req = elim (r.confirm (summary_of req)) [
  | err e ↦ false
  | ok approved ↦
      if approved
      then elim (r.post_local_decision req.id true) [
        | some e ↦ false
        | none ↦ elim (r.get_attestation_bundle req.id) [ err e ↦ false | ok signed ↦ true ]
      ]
      else false
]

module _ (crypto : Crypto) (settings : Settings) (started : Time) where
  -- flow.Request of a pending request
  abbrev pub request_of : PendingRequest → Request
  request_of pending = record {
    id = pending.id;
    connector_id = pending.connector_id;
    local_user = settings.local_user;
  }

  abbrev pub agent_of : List Fetch → World → Agent
  agent_of past w = record {
    crypto = crypto;
    prompter = w.prompter;
    mrtd = settings.allow_mrtd;
    rtmr3 = settings.allow_rtmr3;
    dcap_service = w.dcap_service;
    bootstrap = settings.signing_keys;
    ttl = settings.keyset_cache_ttl;
    started = started;
    past = past;
    now = w.now;
    fetch = some w.fetch;
    post_local_decision = w.post_local_decision;
    get_attestation_bundle = w.get_attestation_bundle;
    post_result = w.post_result;
    install = w.install;
  }

  abbrev pub with_call : Bool → Agent → List Fetch
  with_call asked a = if asked then a.past ++ (this_call a ∷ []) else a.past

  abbrev pub past_after : Request → Agent → List Fetch
  past_after req a = with_call (comes_to_keys (runner_of a) req) a

  -- for _, req := range pending
  unfoldable pub process_all : List (PendingRequest × World) → List Fetch → List Step × List Fetch
  process_all [] past = ([], past)
  process_all ((pending, w) ∷ more) past =
      let a = agent_of past w in
      let req = request_of pending in
      let (steps, past') = process_all more (past_after req a) in
      (processed req (process crypto (runner_of a) req) ∷ steps, past')

  unfoldable pub poll_loop : List Event → List Fetch → List Step
  unfolding process_all
  poll_loop [] past = []
  poll_loop (stops ∷ events) past = []
  poll_loop (ticks (err e) ∷ events) past = poll_failed e ∷ poll_loop events past
  poll_loop (ticks (ok pending) ∷ events) past =
      let (steps, past') = process_all pending past in steps ++ poll_loop events past'
