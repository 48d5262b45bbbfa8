-- ===== src/Resolver/Dns.antt =====
-- The DNS messages that internal/resolver reads and builds, with the fields that it touches, and
-- what it uses of the library miekg/dns.
pub mod Simple
use polaris_sidecar.Prelude.{
  Bool, List, Option, [], false, is_empty, true, ℕ, ◌++◌, ◌∷◌, ◌≡◌, ◌≢◌, ◌⊎◌,
}
use polaris_sidecar.Prelude.Text.{Lacks, Str, codes}

-- `net.IP`: its bytes, none for a nil address.
abbrev pub Addr : Type 0
Addr = List ℕ

pub record Question : Type 0 where
  pub name : Str
  pub qtype : ℕ
  pub qclass : ℕ

-- `dns.RR_Header`
pub record Header : Type 0 where
  pub name : Str
  pub rrtype : ℕ
  pub class : ℕ
  pub ttl : ℕ

-- `dns.EDNS0_SUBNET`
pub record Subnet : Type 0 where
  pub code : ℕ
  pub family : ℕ
  pub source_netmask : ℕ
  pub source_scope : ℕ
  pub address : Addr

pub data EdnsOption : Type 0 where
  subnet_option : Subnet → EdnsOption
  other_option : ℕ → EdnsOption

-- `dns.OPT`; `UDPSize` and `SetUDPSize` stand for the class field of its header.
pub record Opt : Type 0 where
  pub name : Str
  pub rrtype : ℕ
  pub udp_size : ℕ
  pub options : List EdnsOption

pub data Rr : Type 0 where
  a_record aaaa_record : Header → Addr → Rr
  srv_record : Header → ℕ → ℕ → ℕ → Str → Rr
  opt_record : Opt → Rr
  other_record : Header → Rr

-- A slice of `dns.RR` may hold a nil interface.
pub record Msg : Type 0 where
  pub id : ℕ
  pub response : Bool
  pub authoritative : Bool
  pub truncated : Bool
  pub recursion_desired : Bool
  pub recursion_available : Bool
  pub rcode : ℕ
  pub question : List Question
  pub answer : List (Option Rr)
  pub extra : List (Option Rr)

-- `&dns.Msg{}`
unfoldable pub empty_msg : Msg
empty_msg = record {
  id = 0;
  response = false;
  authoritative = false;
  truncated = false;
  recursion_desired = false;
  recursion_available = false;
  rcode = 0;
  question = [];
  answer = [];
  extra = [];
}

-- The numbers of the protocol.
abbrev pub rcode_success : ℕ
rcode_success = 0

abbrev pub rcode_server_failure : ℕ
rcode_server_failure = 2

abbrev pub rcode_name_error : ℕ
rcode_name_error = 3

abbrev pub rcode_not_implemented : ℕ
rcode_not_implemented = 4

abbrev pub rcode_refused : ℕ
rcode_refused = 5

abbrev pub type_a : ℕ
type_a = 1

abbrev pub type_aaaa : ℕ
type_aaaa = 28

abbrev pub type_srv : ℕ
type_srv = 33

abbrev pub type_opt : ℕ
type_opt = 41

abbrev pub edns0_subnet : ℕ
edns0_subnet = 8

abbrev pub class_inet : ℕ
class_inet = 1

abbrev pub min_msg_size : ℕ
min_msg_size = 512

abbrev pub max_msg_size : ℕ
max_msg_size = 65535

-- constants.TcpProtocol and constants.UdpProtocol
abbrev pub tcp : Str
tcp = codes "tcp"

abbrev pub udp : Str
udp = codes "udp"

-- The functions of miekg/dns that the resolvers call.
pub record DnsLib : Type 0 where
  pub set_reply : Msg → Msg → Msg
  pub truncate : ℕ → Msg → Msg
  pub is_edns0 : Msg → Option Opt
  pub fqdn : Str → Str
  pub split_domain_name : Str → List Str

-- What the documentation of `SetReply` and `Truncate` promises: a reply carries the identifier of
-- its request and keeps its own records, and truncation drops records from the end of a section.
pub record DnsLaws (lib : DnsLib) : Type 0 where
  pub set_reply_id : (m r : Msg) → (lib.set_reply m r).id ≡ r.id
  pub set_reply_response : (m r : Msg) → (lib.set_reply m r).response ≡ true
  pub set_reply_answer : (m r : Msg) → (lib.set_reply m r).answer ≡ m.answer
  pub truncate_id : (n : ℕ) (m : Msg) → (lib.truncate n m).id ≡ m.id
  pub truncate_response : (n : ℕ) (m : Msg) → (lib.truncate n m).response ≡ m.response
  pub truncate_rcode : (n : ℕ) (m : Msg) → (lib.truncate n m).rcode ≡ m.rcode
  pub truncate_authoritative :
      (n : ℕ) (m : Msg) → (lib.truncate n m).authoritative ≡ m.authoritative
  pub truncate_recursion :
      (n : ℕ) (m : Msg) → (lib.truncate n m).recursion_available ≡ m.recursion_available
  pub truncate_answer :
      (n : ℕ) (m : Msg) → (rest : List (Option Rr)) × (m.answer ≡ (lib.truncate n m).answer ++ rest)

-- A name that begins with a label.
abbrev pub StartsLabel : Str → Type 0
StartsLabel [] = ⊥
StartsLabel (c ∷ s) = c ≢ b'.'

-- What the documentation of miekg/dns says of names: a label with neither dot nor escape is split
-- off at its dot, and `Fqdn` adds the final dot, if it is missing.
pub record NameLaws (lib : DnsLib) : Type 0 where
  pub split_label :
      (p s : Str)
      → is_empty p ≡ false
      → Lacks b'.' p
      → Lacks 92 p
      → StartsLabel s
      → lib.split_domain_name (p ++ b'.' ∷ s) ≡ p ∷ lib.split_domain_name s
  pub fqdn_lem : (s : Str) → (lib.fqdn s ≡ s) ⊎ (lib.fqdn s ≡ s ++ b'.' ∷ [])
