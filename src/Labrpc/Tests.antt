-- ===== src/Labrpc/Tests.antt =====
-- A small network at work, and the theorems at it.
use mit.Base.{
  ℕ, ◌+◌, true, false, none, some, List, [], ◌∷◌, string_eq, ◌≡◌, refl, ◌≢◌, inl, arith, ◌↔◌,
  ne_of_beq-false,
}
use mit.Base.Maps.{lookup, insert, erase}
use mit.Base.Exec.{returns}
use mit.Labrpc.{
  Network, make_network, make_end, connect, enable, add_server, delete_server, read_endname_info,
  is_server_dead, server_at,
}
use mit.Labrpc.Service.{
  Codec, ReqMsg, ReplyMsg, no_reply, Method, Server, is_handler, make_service, make_server,
  add_service, dispatch,
}
use mit.Labrpc.Process.{Env, Sent, handler_returned, tick, delivered, timed_out, process_req, call}
use mit.Labrpc.Serving.{Reaches, StillServes, Completes, done, later, WasServed}
use mit.Labrpc.Delivery.{
  process_req-WasServed, process_req-superseded, process_req-reliable, process_req-unreachable,
  process_req_replies,
}
use mit.Labrpc.Links.{enable-other, restart-superseded, disable-unreached}
use mit.Labrpc.Dispatch.{no_dot, make_service-lookup}
use mit.Labrpc.Call.{call-WasServed}

-- End "e" leads to server object 7, named "s".
abbrev linked : Network
linked = record {
  reliable = true;
  long_delays = false;
  long_reordering = false;
  ends = ("e", record { endname = "e" }) ∷ [];
  enabled = ("e", true) ∷ [];
  servers = ("s", some 7) ∷ [];
  connections = ("e", some "s") ∷ [];
  done = false;
  count = 0;
  bytes = 0;
}

abbrev lossy : Network
lossy = record linked { reliable = false }

abbrev restarted : Network
restarted = record linked { servers = ("s", some 8) ∷ [] }

abbrev smooth : Env
smooth = record {
  drop_request = false;
  waits = tick linked ∷ handler_returned ∷ [];
  last_look = linked;
  drop_reply = false;
  delay_reply = false;
}

abbrev request : ReqMsg
request = record { endname = "e"; svc_meth = "KV.Get"; args = 5 ∷ [] }

abbrev good : ReplyMsg
good = record { ok = true; reply = 6 ∷ [] }

program : Unit {0}
unfolding lookup insert erase make_network make_end connect enable add_server delete_server
    process_req call dispatch is_server_dead read_endname_info make_service make_server add_service
    no_dot is_handler
program = tt

linked-Reaches : Reaches "e" "s" 7 linked
unfolding program
linked-Reaches = record { is_enabled = refl; is_connected = refl; is_served = refl }

linked-StillServes : StillServes "e" "s" 7 linked
unfolding program
linked-StillServes = record { still_enabled = refl; still_served = refl }

smooth-Completes : Completes "e" "s" (some 7) smooth.waits
unfolding program
smooth-Completes = later refl done

process_req-smooth : process_req lossy request smooth good ≡ some (delivered false good)
unfolding program
process_req-smooth = refl

process_req-dropped :
    process_req lossy request (record smooth { drop_request = true }) good
    ≡ some (record { message = no_reply; delayed = false; counted = none })
unfolding program
process_req-dropped = refl

process_req-WasServed_example : WasServed lossy request smooth good (delivered false good)
process_req-WasServed_example =
    process_req-WasServed lossy request smooth good (delivered false good) process_req-smooth refl

process_req-superseded_example : no_reply.ok ≡ false
unfolding program
process_req-superseded_example =
    process_req-superseded linked request (record smooth { last_look = restarted }) good "s" 7
      (record { message = no_reply; delayed = false; counted = none }) linked-Reaches
      (inl (λ e. ground arith)) refl

process_req-reliable_example : process_req linked request smooth good ≡ some (delivered false good)
process_req-reliable_example =
    process_req-reliable linked request smooth good "s" 7 refl refl linked-Reaches smooth-Completes
      linked-StillServes

process_req-unreachable_example :
    process_req (enable "e" false linked) request smooth good ≡ some timed_out
process_req-unreachable_example =
    process_req-unreachable (enable "e" false linked) request smooth good
      (λ servername server. disable-unreached "e" servername server linked)

process_req_replies_example : process_req lossy request smooth good ≢ none
process_req_replies_example =
    process_req_replies lossy request smooth good (tick linked ∷ []) [] refl

enable-other_example : Reaches "e" "s" 7 linked ↔ Reaches "e" "s" 7 (enable "f" false linked)
enable-other_example = enable-other "f" "e" "s" 7 false linked (ne_of_beq-false "e" "f" refl)

restart-superseded_example : server_at (add_server "s" 8 (delete_server "s" linked)) "s" ≢ some 7
restart-superseded_example = restart-superseded "s" 7 8 linked (omega arith)

-- Values are lists of numbers, which stand for themselves.
abbrev plain : Codec
plain = record {
  Value = List ℕ;
  encode = λ v. v;
  decode = λ v. some v;
  decode-encode = λ v. refl;
  zero_value = [];
}

-- Get counts its calls in the receiver's state.
abbrev get : Method (List ℕ) ℕ
get = record {
  name = "Get";
  exported = true;
  num_in = 3;
  in2_is_ptr = true;
  num_out = 0;
  func = λ v calls. returns (calls ∷ v, calls + 1);
}

abbrev kill : Method (List ℕ) ℕ
kill = record get { name = "Kill"; num_in = 1 }

abbrev kv : Server (List ℕ) ℕ
kv = record {
  services = ("KV", record { name = "KV"; methods = ("Get", get) ∷ [] }) ∷ [];
  count = 3;
}

make_service-kv :
    make_service "KV" (kill ∷ get ∷ []) ≡ record { name = "KV"; methods = ("Get", get) ∷ [] }
unfolding program
make_service-kv = refl

make_service-lookup_example : (is_handler get ≡ true) × (get.name ≡ "Get")
unfolding program
make_service-lookup_example = make_service-lookup "KV" "Get" (kill ∷ get ∷ []) get refl

call-WasServed_example :
    (s : Sent) × WasServed linked request smooth good s × (plain.decode (6 ∷ []) ≡ some (6 ∷ []))
unfolding program
call-WasServed_example =
    call-WasServed plain linked smooth good "e" "KV.Get" (5 ∷ []) (6 ∷ []) true refl
