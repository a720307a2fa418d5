-- ===== src/Router/Proxy/Balanced.antt =====
-- What `proxy_json_route` of crates/lmml-router/src/lib.rs answers and counts.
use lmml.Base.{
  ℕ, suc, ◌+◌, ◌≤◌, ◌<◌, String, ◌≡◌, refl, sym, ◌∙◌, inl, inr, Bool, true, false, ◌||◌, Option,
  List, ◌==◌, eq_iff, arith, if◌then◌else◌, Bool-cases, ltb, leb, Result, ok, err, >>=-ok, subst,
}
use lmml.Substrate.Disk.{Bytes}
use lmml.Substrate.Json.{Value}
use lmml.Router.Types.{UpstreamNodeConfig, RouterConfig, RouterCounters, UpstreamProbe, ApiFailure}
use lmml.Router.Access.{Headers}
use lmml.Router.Counters.{
  u32_end, u64_end, increment_router_running, finish_router_request, upstream_running_requests,
  increment_self, increment-other, finish_self, finish-other,
}
use lmml.Router.Proxy.{
  InferRequest, AuthorizedBody, UpstreamRequest, UpstreamResponse, Sent, responded, failed,
  timed_out, Response, received, relayed, request_of, is_ok, call_upstream_inner, call_upstream,
}
use lmml.Router.Proxy.Route.{choose_upstream, call_chosen, proxy_json_route}

begun_ended :
    (counters : RouterCounters) (upstream : String) (success : Bool)
    → suc (upstream_running_requests counters upstream) < u32_end
    → (q : String)
    → upstream_running_requests
        (finish_router_request (increment_router_running counters upstream) upstream success)
        q
      ≡ upstream_running_requests counters q
begun_ended counters upstream success fits q = elim (Bool-cases (upstream == q)) [
  | inl e ↦
      let same : upstream ≡ q = (eq_iff upstream q).0 e in
      subst
        (λ r.
          upstream_running_requests
            (finish_router_request (increment_router_running counters upstream) upstream success) r
          ≡ upstream_running_requests counters r)
        same
        (let less = finish_self (increment_router_running counters upstream) upstream success in
          let more = increment_self counters upstream fits in omega (arith, less, more))
  | inr e ↦
      finish-other (increment_router_running counters upstream) upstream success q e
      ∙ increment-other counters upstream q e
]

ended :
    (counters : RouterCounters) (upstream : String) (success : Bool)
    → suc counters.completed_requests < u64_end
    → suc counters.failed_requests < u64_end
    → ((finish_router_request
          (increment_router_running counters upstream)
          upstream
          success).completed_requests
        ≡ counters.completed_requests + (if success then 1 else 0))
      × ((finish_router_request
            (increment_router_running counters upstream)
            upstream
            success).failed_requests
          ≡ counters.failed_requests + (if success then 0 else 1))
unfolding finish_router_request increment_router_running
ended counters upstream true small fits = (omega (arith, small), omega arith)
ended counters upstream false small fits = (omega arith, omega (arith, fits))

-- The response is that of an upstream that succeeded, with the identifier of the request.
pub record IsRelayed (send : UpstreamRequest → Sent) (upstream : UpstreamNodeConfig) (path : String)
    (body : AuthorizedBody) (response : Response) : Type 0 where
  pub reply : UpstreamResponse
  pub sent : send (request_of upstream path body) ≡ responded reply
  pub succeeded : (200 ≤ reply.status) × (reply.status < 300)
  pub same : response ≡ record {
    status = reply.status;
    content_type = reply.content_type;
    request_id = body.request_id;
    node_id = reply.upstream_node_id;
    body = reply.bytes;
  }

received-ok :
    (upstream : UpstreamNodeConfig) (body : AuthorizedBody) (s : Sent) (reply : UpstreamResponse)
    → received upstream body s ≡ ok reply
    → s ≡ responded reply
received-ok upstream body (responded r) reply h = cc
received-ok upstream body (failed text) reply h = cc
received-ok upstream body timed_out reply h = cc

call_upstream_inner-IsRelayed :
    (send : UpstreamRequest → Sent) (upstream : UpstreamNodeConfig) (path : String)
    (body : AuthorizedBody) (response : Response)
    → call_upstream_inner send upstream path body ≡ ok response
    → IsRelayed send upstream path body response
unfolding call_upstream_inner
call_upstream_inner-IsRelayed send upstream path body response h =
    let (reply, e, k) =
      >>=-ok (received upstream body (send (request_of upstream path body))) (relayed upstream body)
        h in
    record {
      reply = reply;
      sent = received-ok upstream body (send (request_of upstream path body)) reply e;
      succeeded = (ground (arith, k), ground (arith, k));
      same = sym (built reply k);
    }
  where
    built :
        (reply : UpstreamResponse)
        → relayed upstream body reply ≡ ok response
        → record {
          status = reply.status;
          content_type = reply.content_type;
          request_id = body.request_id;
          node_id = reply.upstream_node_id;
          body = reply.bytes;
        }
          ≡ response
    built reply k = elim (Bool-cases (ltb reply.status 200 || leb 300 reply.status)) [
      | inl e ↦ ground (arith, e, k)
      | inr e ↦ ground (arith, e, k)
    ]

module _ (lowercase : String → String) (enforcement : Option String)
    (from_slice : Bytes → Result String Value) (infer_request : Value → Result String InferRequest)
    (send : UpstreamRequest → Sent) (counters : RouterCounters) (path : String) where
  -- Either no upstream is called, the error of the checks is the answer and nothing is counted; or one is.
  pub data IsAccounted (chosen : Result ApiFailure (UpstreamNodeConfig × AuthorizedBody))
      (result : Result ApiFailure Response) (after : RouterCounters) : Type 0 where
    refused :
        (e : ApiFailure)
        → chosen ≡ err e
        → result ≡ err e
        → after ≡ counters
        → IsAccounted chosen result after
    called :
        (upstream : UpstreamNodeConfig) (body : AuthorizedBody)
        → chosen ≡ ok (upstream, body)
        → ((response : Response)
            → result ≡ ok response
            → IsRelayed send upstream path body response)
        → after.completed_requests ≡ counters.completed_requests + (if is_ok result then 1 else 0)
        → after.failed_requests ≡ counters.failed_requests + (if is_ok result then 0 else 1)
        → IsAccounted chosen result after

  abbrev after_call :
      Result ApiFailure (UpstreamNodeConfig × AuthorizedBody)
      → Result ApiFailure Response × RouterCounters
  after_call =
      call_chosen lowercase enforcement from_slice infer_request send (λ c. c) counters path

  module _ (small : suc counters.completed_requests < u64_end)
      (fits : suc counters.failed_requests < u64_end)
      (open_calls : (upstream : String)
        → suc (upstream_running_requests counters upstream) < u32_end) where
    counted :
        (chosen : Result ApiFailure (UpstreamNodeConfig × AuthorizedBody))
        → ((q : String)
            → upstream_running_requests (after_call chosen).1 q
              ≡ upstream_running_requests counters q)
          × IsAccounted chosen (after_call chosen).0 (after_call chosen).1
    unfolding call_upstream
    counted (err e) = ((λ q. refl), refused e refl refl refl)
    counted (ok (upstream, body)) =
        let result = call_upstream_inner send upstream path body in
        let (completed, lost) = ended counters upstream.name (is_ok result) small fits in
        (
          begun_ended counters upstream.name (is_ok result) (open_calls upstream.name),
          called upstream body refl
              (λ response h. call_upstream_inner-IsRelayed send upstream path body response h)
              completed lost,
        )

    -- Where no other call comes in between, and no counter is at its limit: whatever the upstream
    -- answers, the number of open calls of every upstream is as before. Either the checks refuse
    -- the request, their error is the answer and the counters are as before, or one upstream is
    -- called: the call is counted once, as completed or as failed by its outcome, and a response
    -- that is passed on is that of a success of this upstream, with its status, content type, node
    -- and bytes and the identifier of the request.
    pub proxy_json_route-IsAccounted :
        (config : RouterConfig) (headers : Headers) (to_bytes : ℕ → Result String Bytes)
        (seen : RouterCounters) (probes : List UpstreamProbe) (result : Result ApiFailure Response)
        (after : RouterCounters)
        → proxy_json_route lowercase enforcement from_slice infer_request send
            (λ c. c)
            counters
            path
            config
            headers
            to_bytes
            seen
            probes
          ≡ (result, after)
        → ((q : String) → upstream_running_requests after q ≡ upstream_running_requests counters q)
          × IsAccounted
              (choose_upstream lowercase enforcement from_slice infer_request config headers
                to_bytes path seen probes)
              result
              after
    unfolding proxy_json_route
    proxy_json_route-IsAccounted config headers to_bytes seen probes result after h =
        let chosen =
          choose_upstream lowercase enforcement from_slice infer_request config headers to_bytes
            path seen probes in
        subst
          (λ (out : Result ApiFailure Response × RouterCounters).
            ((q : String)
              → upstream_running_requests out.1 q ≡ upstream_running_requests counters q)
            × IsAccounted chosen out.0 out.1)
          h (counted chosen)
