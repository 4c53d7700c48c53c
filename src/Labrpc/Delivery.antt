-- ===== src/Labrpc/Delivery.antt =====
-- What a caller may conclude from a reply, and when it gets one.
use mit.Base.{
  String, true, false, Option, none, some, List, [], ◌∷◌, ◌++◌, or_else, string_eq, Option-cases,
  ◌≡◌, sym, ◌∙◌, ◌≢◌, ◌⊎◌, inl, inr, arith, Bool-cases,
}
use mit.Base.Maps.{lookup}
use mit.Labrpc.{Network, ServerRef, server_at, read_endname_info}
use mit.Labrpc.Service.{ReqMsg, ReplyMsg}
use mit.Labrpc.Process.{
  Wait, handler_returned, tick, Env, wait_reply, Sent, delivered, answer, serve, timed_out,
  process_req,
}
use mit.Labrpc.Serving.{
  Completes, Completes-wait_reply, Reaches, StillServes, StillServes-alive, WasServed,
  serve-WasServed,
}

-- The start of processReq: the end leads to a server, or the request times out.
process_req-cases :
    (rn : Network) (req : ReqMsg) (env : Env) (reply : ReplyMsg)
    → (process_req rn req env reply ≡ some timed_out)
      ⊎ ((servername : String) × (server : ServerRef) × Reaches req.endname servername server rn
          × (process_req rn req env reply
              ≡ serve
                  (read_endname_info req.endname rn)
                  req.endname
                  servername
                  (some server)
                  env
                  reply))
unfolding process_req read_endname_info
process_req-cases rn req env reply =
    elim (Option-cases (or_else (lookup req.endname rn.connections) none)) [
      | inl e ↦ inl (ground arith)
      | inr (servername, e) ↦ elim (Option-cases (server_at rn servername)) [
        | inl none_there ↦ inl (ground arith)
        | inr (server, there) ↦ elim (Bool-cases (or_else (lookup req.endname rn.enabled) false)) [
          | inr off ↦ inl (ground arith)
          | inl on ↦ inr (
            servername,
            server,
            record { is_enabled = ground arith; is_connected = ground arith; is_served = there },
            ground arith,
          )
        ]
      ]
    ]

-- A positive reply is the handler's own. When the request was taken up the end was enabled and
-- connected to a name that had a server, and after the handler had returned the end was enabled and
-- the name still had the same server object. Whether the end is still connected to that name is not
-- looked at again.
pub process_req-WasServed :
    (rn : Network) (req : ReqMsg) (env : Env) (reply : ReplyMsg) (s : Sent)
    → process_req rn req env reply ≡ some s
    → s.message.ok ≡ true
    → WasServed rn req env reply s
process_req-WasServed rn req env reply s h ok = elim (process_req-cases rn req env reply) [
  | inl out ↦ absurd (ground arith)
  | inr (servername, server, r, e) ↦
      serve-WasServed rn req env reply servername server s r (sym e ∙ h) ok
]

-- If the server that the end led to at the start was deleted or replaced, or the end disabled, before
-- the last look, the reply is a failure.
pub process_req-superseded :
    (rn : Network) (req : ReqMsg) (env : Env) (reply : ReplyMsg) (servername : String)
    (server : ServerRef) (s : Sent)
    → Reaches req.endname servername server rn
    → (server_at env.last_look servername ≢ some server)
      ⊎ (lookup req.endname env.last_look.enabled ≢ some true)
    → process_req rn req env reply ≡ some s
    → s.message.ok ≡ false
process_req-superseded rn req env reply servername server s r gone h =
    elim (Bool-cases s.message.ok) [
      | inr e ↦ e
      | inl e ↦ absurd (contradiction (process_req-WasServed rn req env reply s h e) gone)
    ]
  where
    contradiction :
        WasServed rn req env reply s
        → (server_at env.last_look servername ≢ some server)
          ⊎ (lookup req.endname env.last_look.enabled ≢ some true)
        → ⊥
    contradiction w (inr off) = off w.at_end.still_enabled
    contradiction w (inl gone') =
        let same_name : w.servername ≡ servername = cc (w.at_start.is_connected, r.is_connected) in
        let same_server : w.server ≡ server = cc (w.at_start.is_served, r.is_served, same_name) in
        gone' (cc (w.at_end.still_served, same_name, same_server))

-- On a reliable network without reordering the handler's reply is delivered at once, if the server
-- stays until the last look.
pub process_req-reliable :
    (rn : Network) (req : ReqMsg) (env : Env) (reply : ReplyMsg) (servername : String)
    (server : ServerRef)
    → rn.reliable ≡ true
    → rn.long_reordering ≡ false
    → Reaches req.endname servername server rn
    → Completes req.endname servername (some server) env.waits
    → StillServes req.endname servername server env.last_look
    → process_req rn req env reply ≡ some (delivered false reply)
unfolding process_req serve answer read_endname_info
process_req-reliable rn req env reply servername server rel reord r c e = ground (
  arith,
  r.is_connected,
  r.is_enabled,
  r.is_served,
  Completes-wait_reply c,
  StillServes-alive req.endname servername server env.last_look e,
)

-- A request over an end that is disabled or leads to no server fails, and its handler is not run:
-- nothing of the reply or of the schedule shows.
pub process_req-unreachable :
    (rn : Network) (req : ReqMsg) (env : Env) (reply : ReplyMsg)
    → ((servername : String) (server : ServerRef) → ¬ Reaches req.endname servername server rn)
    → process_req rn req env reply ≡ some timed_out
process_req-unreachable rn req env reply none_reached = elim (process_req-cases rn req env reply) [
  | inl out ↦ out
  | inr (servername, server, r, e) ↦ absurd (none_reached servername server r)
]

wait_reply_ends :
    (endname servername : String) (server : Option ServerRef) (before after : List Wait)
    → wait_reply endname servername server (before ++ handler_returned ∷ after) ≢ none
unfolding wait_reply
wait_reply_ends endname servername server [] after h = cc
wait_reply_ends endname servername server (handler_returned ∷ before) after h = cc
wait_reply_ends endname servername server (tick rn ∷ before) after h =
    ground (arith, wait_reply_ends endname servername server before after)

serve_ends :
    (rn : Network) (req : ReqMsg) (env : Env) (reply : ReplyMsg) (servername : String)
    (server : ServerRef)
    → wait_reply req.endname servername (some server) env.waits ≢ none
    → serve (read_endname_info req.endname rn) req.endname servername (some server) env reply ≢ none
unfolding serve
serve_ends rn req env reply servername server w =
    elim (Option-cases (wait_reply req.endname servername (some server) env.waits)) [
      | inl e ↦ absurd (w e)
      | inr (x, e) ↦ λ h. ground arith
    ]

-- Once the handler returns a reply is sent, whatever the network does meanwhile.
pub process_req_replies :
    (rn : Network) (req : ReqMsg) (env : Env) (reply : ReplyMsg) (before after : List Wait)
    → env.waits ≡ before ++ handler_returned ∷ after
    → process_req rn req env reply ≢ none
process_req_replies rn req env reply before after w h = elim (process_req-cases rn req env reply) [
  | inl out ↦ cc
  | inr (servername, server, r, e) ↦
      serve_ends rn req env reply servername server
        (rw w (wait_reply_ends req.endname servername (some server) before after)) (sym e ∙ h)
]
