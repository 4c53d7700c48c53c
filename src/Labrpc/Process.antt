-- ===== src/Labrpc/Process.antt =====
-- src/labrpc/labrpc.go: processReq, one request from its arrival to its reply, and ClientEnd.Call.
-- What runs beside it is an argument: the outcomes of `rand`, what the `select` of the waiting loop
-- receives, and the network as each look at it finds it.
use mit.Base.{
  ℕ, String, Bool, true, false, not, ◌&&◌, Option, none, some, List, [], ◌∷◌, if◌then◌else◌,
  is_some, length,
}
use mit.Base.Exec.{Exec, returns, fatal}
use mit.Labrpc.{Network, ServerRef, EndnameInfo, read_endname_info, is_server_dead, count_reply}
use mit.Labrpc.Service.{Codec, ReqMsg, ReplyMsg, no_reply}

-- One round of the loop: the handler's reply comes first, or 100 ms pass and the network is read.
pub data Wait : Type 0 where
  handler_returned : Wait
  tick : Network → Wait

pub record Env : Type 0 where
  pub drop_request : Bool
  pub waits : List Wait
  pub last_look : Network
  pub drop_reply : Bool
  pub delay_reply : Bool

-- What ends the loop: the handler's reply, or the death of the server.
pub data Waited : Type 0 where
  replied died : Waited

-- `none` while the loop goes on past the rounds that are given.
unfoldable pub wait_reply : String → String → Option ServerRef → List Wait → Option Waited
wait_reply endname servername server [] = none
wait_reply endname servername server (handler_returned ∷ waits) = some replied
wait_reply endname servername server (tick rn ∷ waits) =
    if is_server_dead endname servername server rn
    then some died
    else wait_reply endname servername server waits

-- A reply as it is put on the channel: at once or later, with the bytes that it adds to the count.
pub record Sent : Type 0 where
  pub message : ReplyMsg
  pub delayed : Bool
  pub counted : Option ℕ

abbrev pub failed : Sent
failed = record { message = no_reply; delayed = false; counted = none }

abbrev pub delivered : Bool → ReplyMsg → Sent
delivered delayed reply = record {
  message = reply;
  delayed = delayed;
  counted = some (length reply.reply);
}

-- The part of processReq behind the loop.
unfoldable pub answer :
    EndnameInfo → String → String → Option ServerRef → Env → ReplyMsg → Waited → Sent
answer info endname servername server env reply died = failed
answer info endname servername server env reply replied =
    if is_server_dead endname servername server env.last_look
    then failed
    else if not info.reliable && env.drop_reply
    then failed
    else if info.longreordering && env.delay_reply
    then delivered true reply
    else delivered false reply

-- The part of processReq for a request that has a server.
unfoldable pub serve :
    EndnameInfo → String → String → Option ServerRef → Env → ReplyMsg → Option Sent
unfolding wait_reply answer
serve info endname servername server env reply =
    if not info.reliable && env.drop_request
    then some failed
    else elim (wait_reply endname servername server env.waits) [
      | none ↦ none
      | some waited ↦ some (answer info endname servername server env reply waited)
    ]

-- "simulate no reply and eventual timeout"
abbrev pub timed_out : Sent
timed_out = record { message = no_reply; delayed = true; counted = none }

-- processReq; `reply` is what `server.dispatch(req)` gives. `none` while it waits.
unfoldable pub process_req : Network → ReqMsg → Env → ReplyMsg → Option Sent
unfolding serve
process_req rn req env reply =
    let info = read_endname_info req.endname rn in
    elim info.servername [
      | none ↦ some timed_out
      | some servername ↦
          if info.enabled && is_some info.server
          then serve info req.endname servername info.server env reply
          else some timed_out
    ]

-- The network's counters after the reply.
unfoldable pub count_sent : Sent → Network → Network
count_sent sent rn = elim sent.counted [ none ↦ rn | some size ↦ count_reply size rn ]

module _ (codec : Codec) where
  open codec use {Value, encode, decode}

  -- The reply side of ClientEnd.Call: whether it succeeds, with the value; a reply that does not
  -- decode ends the process.
  unfoldable pub receive : ReplyMsg → Exec (Option Value)
  receive rep =
      if rep.ok
      then elim (decode rep.reply) [ none ↦ fatal | some v ↦ returns (some v) ]
      else returns none

  -- ClientEnd.Call: `sent` is the `select`'s choice between the network and its end.
  unfoldable pub call :
      String → String → Value → Bool → (ReqMsg → Option Sent) → Option (Exec (Option Value))
  unfolding receive
  call endname svc_meth args sent network =
      let req : ReqMsg = record { endname = endname; svc_meth = svc_meth; args = encode args } in
      if not sent
      then some (returns none)
      else elim (network req) [ none ↦ none | some s ↦ some (receive s.message) ]
