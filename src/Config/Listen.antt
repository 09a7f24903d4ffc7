-- ===== src/Config/Listen.antt =====
-- `resolve_listen` of main.py: the address that the HTTP ingress binds.
use agent_wake.Prelude.{
  ◌≤◌, String, ◌≡◌, true, false, ◌||◌, Option, none, some, ◌==◌, if◌then◌else◌,
}
use agent_wake.Json.{ℤ, pos, negsuc, Json, Fields, bool, int, str, end, get, as_obj}
use agent_wake.Json.Number.{py_int}
use agent_wake.Config.Checked.{
  Checked, ok, refused, crashed, ◌>>=◌, is_none, is_filled, is_port, port_range, or_default,
}

-- the port of the environment
unfoldable pub env_port : String → Checked ℤ
unfolding py_int
env_port text = elim (py_int text) [
  | none ↦ refused "AGENT_WAKE_LISTEN_PORT"
  | some n ↦ if port_range n then ok n else refused "AGENT_WAKE_LISTEN_PORT"
]

-- `int(v)` of a value that is no text; on None, a list or a dictionary it raises, and a float, which the
-- check of the block lets nobody write, is left out
abbrev int_of : Json → Checked ℤ
int_of (int n) = ok n
int_of (bool true) = ok (pos 1)
int_of (bool false) = ok (pos 0)
int_of v = crashed

abbrev or_empty : Option Fields → Fields
or_empty none = end
or_empty (some d) = d

-- `x or y` for a variable of the environment
abbrev set_text : Option String → Option String
set_text none = none
set_text (some s) = if s == "" then none else some s

-- `return host, port`, if there is a port
abbrev bound : Json → Checked ℤ → Checked (Json × ℤ)
bound host port = port >>= λ n. ok (host, n)

unfoldable pub resolve_listen : Option String → Option String → Fields → Checked (Json × ℤ)
unfolding env_port
resolve_listen host_env port_env cfg =
    let listen = or_empty (as_obj (get "listen" cfg)) in
    let host : Json = elim (set_text host_env) [
      | none ↦ or_default (get "host" listen) (str "127.0.0.1")
      | some h ↦ str h
    ] in
    bound host (elim (set_text port_env) [
      | none ↦ int_of (or_default (get "port" listen) (int (pos 8788)))
      | some text ↦ env_port text
    ])

-- a port that a socket can have
abbrev pub IsPort : ℤ → Type 0
IsPort (pos n) = (1 ≤ n) × (n ≤ 65535)
IsPort (negsuc n) = ⊥

-- a host that is a text and not empty
abbrev pub IsHost : Json → Type 0
IsHost v = (s : String) × (v ≡ str s) × ((s == "") ≡ false)

-- what the check of the block lets through
abbrev Checks : Fields → Type 0
Checks listen =
    ((is_none (get "host" listen) || is_filled (get "host" listen)) ≡ true)
    × ((is_none (get "port" listen) || is_port (get "port" listen)) ≡ true)
