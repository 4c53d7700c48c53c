-- ===== src/Labrpc/Serving.antt =====
-- What it takes for a request to be served, and what its answer then says.
use mit.Base.{
  String, true, false, Option, none, some, List, [], ◌∷◌, string_eq, Option-cases, ◌≡◌, refl, sym,
  ◌∙◌, inl, inr, arith, Bool-cases, ap,
}
use mit.Base.Maps.{lookup}
use mit.Labrpc.{Network, ServerRef, beq_ref, server_at, read_endname_info, is_server_dead}
use mit.Labrpc.Service.{ReqMsg, ReplyMsg}
use mit.Labrpc.Process.{
  Wait, handler_returned, tick, Env, Waited, replied, died, wait_reply, Sent, answer, serve,
}

-- The end is enabled and leads to this server object.
pub record Reaches (endname servername : String) (server : ServerRef) (rn : Network) : Type 0 where
  pub is_enabled : lookup endname rn.enabled ≡ some true
  pub is_connected : lookup endname rn.connections ≡ some (some servername)
  pub is_served : server_at rn servername ≡ some server

-- The end is enabled and the server object is still the one under the name.
pub record StillServes (endname servername : String) (server : ServerRef) (rn : Network)
    : Type 0 where
  pub still_enabled : lookup endname rn.enabled ≡ some true
  pub still_served : server_at rn servername ≡ some server

beq_ref-eq : (a : Option ServerRef) (b : ServerRef) → beq_ref a (some b) ≡ true → a ≡ some b
beq_ref-eq none b h = cc
beq_ref-eq (some a) b h = ground arith

alive-StillServes :
    (endname servername : String) (server : ServerRef) (rn : Network)
    → is_server_dead endname servername (some server) rn ≡ false
    → StillServes endname servername server rn
unfolding is_server_dead
alive-StillServes endname servername server rn h = record {
  still_enabled = ground arith;
  still_served = beq_ref-eq (server_at rn servername) server (ground arith);
}

pub StillServes-alive :
    (endname servername : String) (server : ServerRef) (rn : Network)
    → StillServes endname servername server rn
    → is_server_dead endname servername (some server) rn ≡ false
unfolding is_server_dead
StillServes-alive endname servername server rn s = ground (arith, s.still_enabled, s.still_served)

-- The handler returned before the loop saw the server dead.
pub data Completes (endname servername : String) (server : Option ServerRef)
    : List Wait → Type 0 where
  done : {waits : List Wait} → Completes endname servername server (handler_returned ∷ waits)
  later :
      {rn : Network} {waits : List Wait}
      → is_server_dead endname servername server rn ≡ false
      → Completes endname servername server waits
      → Completes endname servername server (tick rn ∷ waits)

wait_reply-Completes :
    (endname servername : String) (server : Option ServerRef) (waits : List Wait)
    → wait_reply endname servername server waits ≡ some replied
    → Completes endname servername server waits
unfolding wait_reply
wait_reply-Completes endname servername server [] h = cc
wait_reply-Completes endname servername server (handler_returned ∷ waits) h = done
wait_reply-Completes endname servername server (tick rn ∷ waits) h =
    elim (Bool-cases (is_server_dead endname servername server rn)) [
      | inl dead ↦ absurd (cc (rw dead at h))
      | inr alive ↦
          later alive (wait_reply-Completes endname servername server waits (rw alive at h))
    ]

pub Completes-wait_reply :
    {endname servername : String} {server : Option ServerRef} {waits : List Wait}
    → Completes endname servername server waits
    → wait_reply endname servername server waits ≡ some replied
unfolding wait_reply
Completes-wait_reply done = refl
Completes-wait_reply (later alive c) = rw alive (Completes-wait_reply c)

-- An answer with a positive reply comes from the handler, and the last look found the server.
answer-ok :
    (rn : Network) (endname servername : String) (server : ServerRef) (env : Env) (reply : ReplyMsg)
    (w : Waited)
    → (answer
        (read_endname_info endname rn)
        endname
        servername
        (some server)
        env
        reply
        w).message.ok
      ≡ true
    → (w ≡ replied)
      × (is_server_dead endname servername (some server) env.last_look ≡ false)
      × ((answer
            (read_endname_info endname rn)
            endname
            servername
            (some server)
            env
            reply
            w).message
          ≡ reply)
unfolding answer
answer-ok rn endname servername server env reply died h = cc
answer-ok rn endname servername server env reply replied h = (refl, ground arith, ground arith)

pub record WasServed (rn : Network) (req : ReqMsg) (env : Env) (reply : ReplyMsg) (s : Sent)
    : Type 0 where
  pub servername : String
  pub server : ServerRef
  pub at_start : Reaches req.endname servername server rn
  pub completes : Completes req.endname servername (some server) env.waits
  pub at_end : StillServes req.endname servername server env.last_look
  pub same_reply : s.message ≡ reply

serve-answer :
    (rn : Network) (req : ReqMsg) (env : Env) (reply : ReplyMsg) (servername : String)
    (server : ServerRef) (s : Sent)
    → serve (read_endname_info req.endname rn) req.endname servername (some server) env reply
      ≡ some s
    → s.message.ok ≡ true
    → (w : Waited) × (wait_reply req.endname servername (some server) env.waits ≡ some w)
      × (s
          ≡ answer
              (read_endname_info req.endname rn)
              req.endname
              servername
              (some server)
              env
              reply
              w)
unfolding serve
serve-answer rn req env reply servername server s h ok =
    elim (Option-cases (wait_reply req.endname servername (some server) env.waits)) [
      | inl e ↦ ground arith
      | inr (w, e) ↦ (w, e, ground arith)
    ]

pub serve-WasServed :
    (rn : Network) (req : ReqMsg) (env : Env) (reply : ReplyMsg) (servername : String)
    (server : ServerRef) (s : Sent)
    → Reaches req.endname servername server rn
    → serve (read_endname_info req.endname rn) req.endname servername (some server) env reply
      ≡ some s
    → s.message.ok ≡ true
    → WasServed rn req env reply s
serve-WasServed rn req env reply servername server s r h ok =
    let (w, waited, is_answer) = serve-answer rn req env reply servername server s h ok in
    let a =
      answer-ok rn req.endname servername server env reply w
        (sym (ap (λ x. x.message.ok) is_answer) ∙ ok) in
    record {
      servername = servername;
      server = server;
      at_start = r;
      completes =
          wait_reply-Completes req.endname servername (some server) env.waits
            (waited ∙ ap some a.0);
      at_end = alive-StillServes req.endname servername server env.last_look a.1;
      same_reply = ap (λ x. x.message) is_answer ∙ a.2;
    }
