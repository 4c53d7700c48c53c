-- ===== src/Labrpc/Call.antt =====
-- ClientEnd.Call over processReq: the whole path of a call.
use mit.Base.{
  String, Bool, true, false, some, string_eq, nat_eq, ◌≡◌, sym, ◌∙◌, inl, inr, arith, Option-cases,
  ap,
}
use mit.Base.Exec.{returns}
use mit.Labrpc.{Network, ServerRef}
use mit.Labrpc.Service.{Codec, ReqMsg, ReplyMsg}
use mit.Labrpc.Process.{Env, Sent, process_req, call}
use mit.Labrpc.Serving.{Reaches, Completes, StillServes, WasServed}
use mit.Labrpc.Delivery.{process_req-WasServed, process_req-reliable}

module _ (codec : Codec) where
  open codec use {Value, encode, decode, decode-encode}

  -- Call returns true only with a value that the reply of the handler decodes to, and only if the
  -- end was enabled and connected to a name that had a server when the request was taken up, and
  -- after the handler had returned the end was enabled and the name still had that server object.
  pub call-WasServed :
      (rn : Network) (env : Env) (reply : ReplyMsg) (endname svc_meth : String) (args v : Value)
      (sent : Bool)
      → call codec endname svc_meth args sent (λ req. process_req rn req env reply)
        ≡ some (returns (some v))
      → (s : Sent) × WasServed rn
          (record { endname = endname; svc_meth = svc_meth; args = encode args })
          env
          reply
          s
        × (decode reply.reply ≡ some v)
  unfolding call
  call-WasServed rn env reply endname svc_meth args v sent h =
      let req : ReqMsg = record { endname = endname; svc_meth = svc_meth; args = encode args } in
      elim (Option-cases (process_req rn req env reply)) [
        | inl e ↦ absurd (ground arith)
        | inr (s, e) ↦
            let ok : s.message.ok ≡ true = ground arith in
            let w : WasServed rn req env reply s = process_req-WasServed rn req env reply s e ok in
            let got : decode s.message.reply ≡ some v = ground arith in
            (s, w, ap (λ (m : ReplyMsg). decode m.reply) (sym w.same_reply) ∙ got)
      ]

  -- On a reliable network without reordering, over an end that leads to a server which stays, a
  -- call returns true with the value that the handler gave.
  pub call-reliable :
      (rn : Network) (env : Env) (endname servername svc_meth : String) (server : ServerRef)
      (args out : Value)
      → rn.reliable ≡ true
      → rn.long_reordering ≡ false
      → Reaches endname servername server rn
      → Completes endname servername (some server) env.waits
      → StillServes endname servername server env.last_look
      → call codec endname svc_meth args true
          (λ req. process_req rn req env (record { ok = true; reply = encode out }))
        ≡ some (returns (some out))
  unfolding call
  call-reliable rn env endname servername svc_meth server args out rel reord r c e =
      let req : ReqMsg = record { endname = endname; svc_meth = svc_meth; args = encode args } in
      ground (
        arith,
        process_req-reliable rn req env (record { ok = true; reply = encode out }) servername server
            rel reord r c e,
        decode-encode out,
      )
