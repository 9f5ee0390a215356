-- ===== src/Http/Confirmed.antt =====
-- No connection without an authorised local confirmation, over the requests that a control plane
-- serves.
use enclout.Prelude.{String, true, some, List, [], ◌∷◌, ◌≡◌, refl, subst, ◌∙◌, ap}
use enclout.GoMap.{lookup}
use enclout.Requests.Model.{Status, Time, ConnectionRequest}
use enclout.Requests.Store.{Store, new_store}
use enclout.Requests.Calls.{Call, decides, results, run}
use enclout.Requests.Lifecycle.Approval.{
  Reports, Some, here, there, Confirmed, confirm, later, connected-Confirmed,
}
use enclout.Http.{Server}
use enclout.Http.Memory.{Event, serve_event, serve_all}
use enclout.Http.Issued.{Issued, unchanged, calls}
use enclout.Http.Advances.{serve_event-Advances}

-- The calls that some requests issue, in their order.
data CallsOf (srv : Server) : List Event → List Call → Type 0 where
  none_left : CallsOf srv [] []
  idle :
      {e : Event} {es : List Event} {cs : List Call} → CallsOf srv es cs → CallsOf srv (e ∷ es) cs
  issue :
      {e : Event} {c : Call} {es : List Event} {cs : List Call}
      → Issued srv e c
      → CallsOf srv es cs
      → CallsOf srv (e ∷ es) (c ∷ cs)

-- The requests stand for calls that have the same effect.
serve_all-run :
    (srv : Server) (es : List Event) (s : Store)
    → (cs : List Call) × CallsOf srv es cs × (serve_all srv es s ≡ run srv.sha256_hex cs s)
unfolding serve_all run
serve_all-run srv [] s = ([], none_left, refl)
serve_all-run srv (e ∷ es) s = elim (serve_event-Advances srv e s) [
  | unchanged same ↦
      let (cs, of, end) = serve_all-run srv es (serve_event srv e s).1 in
      (cs, idle of, end ∙ ap (run srv.sha256_hex cs) same)
  | calls c issued same ↦
      let (cs, of, end) = serve_all-run srv es (serve_event srv e s).1 in
      (c ∷ cs, issue issued of, end ∙ ap (run srv.sha256_hex cs) same)
]

-- One of the requests bears the token and reports the request `k` as connected.
pub data ReportedBy (srv : Server) (k : String) : List Event → Type 0 where
  reported :
      {e : Event} {es : List Event} (t : Time) (reason : String)
      → Issued srv e (results t k Status.connected reason)
      → ReportedBy srv k (e ∷ es)
  reported_later : {e : Event} {es : List Event} → ReportedBy srv k es → ReportedBy srv k (e ∷ es)

-- One of the requests bears the token and confirms the request `k`, and a later one reports it as
-- connected.
pub data ConfirmedBy (srv : Server) (k : String) : List Event → Type 0 where
  confirmed :
      {e : Event} {es : List Event} (t : Time)
      → Issued srv e (decides t k true)
      → ReportedBy srv k es
      → ConfirmedBy srv k (e ∷ es)
  confirmed_later :
      {e : Event} {es : List Event} → ConfirmedBy srv k es → ConfirmedBy srv k (e ∷ es)

CallsOf-ReportedBy :
    (srv : Server) (k : String) {es : List Event} {cs : List Call}
    → CallsOf srv es cs
    → Some (Reports k) cs
    → ReportedBy srv k es
CallsOf-ReportedBy srv k none_left h = elim h [ ]
CallsOf-ReportedBy srv k (idle of) some_report =
    reported_later (CallsOf-ReportedBy srv k of some_report)
CallsOf-ReportedBy srv k (issue {e} issued of) (here (t, reason, same)) =
    reported t reason (subst (Issued srv e) same issued)
CallsOf-ReportedBy srv k (issue issued of) (there rest) =
    reported_later (CallsOf-ReportedBy srv k of rest)

CallsOf-ConfirmedBy :
    (srv : Server) (k : String) {es : List Event} {cs : List Call}
    → CallsOf srv es cs
    → Confirmed k cs
    → ConfirmedBy srv k es
CallsOf-ConfirmedBy srv k none_left h = elim h [ ]
CallsOf-ConfirmedBy srv k (idle of) found = confirmed_later (CallsOf-ConfirmedBy srv k of found)
CallsOf-ConfirmedBy srv k (issue {e} issued of) (confirm (t, same) report) =
    confirmed t (subst (Issued srv e) same issued) (CallsOf-ReportedBy srv k of report)
CallsOf-ConfirmedBy srv k (issue issued of) (later rest) =
    confirmed_later (CallsOf-ConfirmedBy srv k of rest)

-- Whatever requests a control plane with an empty store serves: a connection request is connected
-- only if one of them was a POST to its local-decision path with the approval in its body, and a
-- later one a POST to its result path that reports it as connected; both bore the API token.
pub connected-ConfirmedBy :
    (srv : Server) (es : List Event) (k : String) (r : ConnectionRequest)
    → lookup k (serve_all srv es new_store).items ≡ some r
    → r.status ≡ Status.connected
    → ConfirmedBy srv k es
connected-ConfirmedBy srv es k r found status =
    let (cs, of, same) = serve_all-run srv es new_store in
    CallsOf-ConfirmedBy srv k of (
      connected-Confirmed srv.sha256_hex cs k r
        (subst (λ (s : Store). lookup k s.items ≡ some r) same found) status)
