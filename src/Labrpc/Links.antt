-- ===== src/Labrpc/Links.antt =====
-- How ends come to lead to servers, and stop doing so.
use mit.Base.{String, Bool, true, false, none, some, string_eq, ◌≡◌, refl, ◌≢◌, arith, ◌↔◌}
use mit.Base.Maps.{insert, lookup-insert, lookup-erase, has}
use mit.Base.Exec.{returns}
use mit.Labrpc.{
  Network, ServerRef, ClientEnd, server_at, make_end, delete_end, connect, enable, add_server,
  delete_server,
}
use mit.Labrpc.Serving.{Reaches}

-- MakeEnd of a new name, Connect, AddServer and Enable make the end lead to the server.
pub link-Reaches :
    (endname servername : String) (rs : ServerRef) (rn : Network)
    → has endname rn.ends ≡ false
    → (rn' : Network) × (make_end endname rn ≡ returns (rn', record { endname = endname }))
      × Reaches endname servername rs
          (enable endname true (add_server servername rs (connect endname servername rn')))
unfolding make_end enable add_server connect
link-Reaches endname servername rs rn new = (
  record rn {
    ends = insert endname (record { endname = endname }) rn.ends;
    enabled = insert endname false rn.enabled;
    connections = insert endname none rn.connections;
  },
  rw new refl,
  record {
    is_enabled = ground (
      arith,
      lookup-insert endname endname true (insert endname false rn.enabled),
      string_eq.beq_iff endname endname,
    );
    is_connected = ground (
      arith,
      lookup-insert endname endname (some servername) (insert endname none rn.connections),
      string_eq.beq_iff endname endname,
    );
    is_served = ground (
      arith,
      lookup-insert servername servername (some rs) rn.servers,
      string_eq.beq_iff servername servername,
    );
  },
)

-- A new end leads nowhere until it is enabled: MakeEnd leaves it disabled, and Connect does not
-- enable it.
pub make_end_disabled :
    (endname servername : String) (server : ServerRef) (rn rn' : Network) (e : ClientEnd)
    → make_end endname rn ≡ returns (rn', e)
    → ¬ Reaches endname servername server (connect endname servername rn')
unfolding make_end connect
make_end_disabled endname servername server rn rn' e made r = ground (
  arith,
  r.is_enabled,
  lookup-insert endname endname false rn.enabled,
  string_eq.beq_iff endname endname,
)

-- After DeleteServer, Enable(false) or DeleteEnd no server is reached over the end.
pub delete_server-unreached :
    (endname servername : String) (server : ServerRef) (rn : Network)
    → ¬ Reaches endname servername server (delete_server servername rn)
unfolding delete_server
delete_server-unreached endname servername server rn r = ground (
  arith,
  r.is_served,
  lookup-insert servername servername none rn.servers,
  string_eq.beq_iff servername servername,
)

pub disable-unreached :
    (endname servername : String) (server : ServerRef) (rn : Network)
    → ¬ Reaches endname servername server (enable endname false rn)
unfolding enable
disable-unreached endname servername server rn r = ground (
  arith,
  r.is_enabled,
  lookup-insert endname endname false rn.enabled,
  string_eq.beq_iff endname endname,
)

pub delete_end-unreached :
    (endname servername : String) (server : ServerRef) (rn rn' : Network)
    → delete_end endname rn ≡ returns rn'
    → ¬ Reaches endname servername server rn'
unfolding delete_end
delete_end-unreached endname servername server rn rn' h r = ground (
  arith,
  r.is_enabled,
  lookup-erase endname endname rn.enabled,
  string_eq.beq_iff endname endname,
)

-- An operation on one end leaves the links of the others alone.
pub enable-other :
    (endname other servername : String) (server : ServerRef) (on : Bool) (rn : Network)
    → other ≢ endname
    → Reaches other servername server rn ↔ Reaches other servername server (enable endname on rn)
unfolding enable
enable-other endname other servername server on rn ne = (
  λ r. record {
    is_enabled = ground (
      arith,
      r.is_enabled,
      lookup-insert endname other on rn.enabled,
      string_eq.beq_iff other endname,
    );
    is_connected = r.is_connected;
    is_served = r.is_served;
  },
  λ r. record {
    is_enabled = ground (
      arith,
      r.is_enabled,
      lookup-insert endname other on rn.enabled,
      string_eq.beq_iff other endname,
    );
    is_connected = r.is_connected;
    is_served = r.is_served;
  },
)

-- A deleted server that is added again as another object does not count as the old one.
pub restart-superseded :
    (servername : String) (server fresh : ServerRef) (rn : Network)
    → fresh ≢ server
    → server_at (add_server servername fresh (delete_server servername rn)) servername ≢ some server
unfolding add_server delete_server
restart-superseded servername server fresh rn ne h = ground (
  arith,
  lookup-insert servername servername (some fresh) (insert servername none rn.servers),
  string_eq.beq_iff servername servername,
)
