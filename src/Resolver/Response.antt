-- ===== src/Resolver/Response.antt =====
-- internal/resolver/common/dns.go: how a reply is completed. What the functions return is the
-- message that `WriteMsg` gets; its failure is only logged.
pub mod Sizes
pub mod Written
use polaris_sidecar.Prelude.{
  Bool, List, Option, [], if◌then◌else◌, ltb, none, some, true, ℕ, ◌++◌, ◌==◌, ◌||◌, ◌∷◌,
}
use polaris_sidecar.Prelude.Text.{Str, str_eq}
use polaris_sidecar.Resolver.Dns.{
  DnsLib, EdnsOption, Msg, Opt, Subnet, edns0_subnet, empty_msg, max_msg_size, min_msg_size,
  opt_record, other_option, rcode_name_error, rcode_not_implemented, rcode_refused,
  rcode_server_failure, subnet_option, tcp, type_opt,
}
use polaris_sidecar.Resolver.DnsAgent.Answers.{request}

unfoldable pub edns_size : Str → ℕ → ℕ
edns_size proto size =
    if str_eq proto tcp then max_msg_size else if ltb size min_msg_size then min_msg_size else size

abbrev advertised : Option Opt → ℕ
advertised none = 0
advertised (some o) = o.udp_size

unfoldable pub find_subnet : List EdnsOption → Option Subnet
find_subnet [] = none
find_subnet (subnet_option s ∷ os) = some s
find_subnet (other_option n ∷ os) = find_subnet os

abbrev pub globally_valid : Bool → ℕ → Bool
globally_valid ecs_global c =
    ecs_global
    || c == rcode_name_error
    || c == rcode_server_failure
    || c == rcode_refused
    || c == rcode_not_implemented

-- The client subnet option of the reply.
unfoldable pub subnet_reply : Bool → ℕ → Subnet → Subnet
subnet_reply ecs_global rcode subnet = record {
  code = edns0_subnet;
  family = subnet.family;
  source_netmask = subnet.source_netmask;
  source_scope = if globally_valid ecs_global rcode then 0 else subnet.source_netmask;
  address = subnet.address;
}

unfoldable pub edns_options : Bool → ℕ → Option Subnet → List EdnsOption
unfolding subnet_reply
edns_options ecs_global rcode none = []
edns_options ecs_global rcode (some s) = subnet_option (subnet_reply ecs_global rcode s) ∷ []

module _ (lib : DnsLib) where
  open lib use {set_reply, truncate, is_edns0}

  unfoldable pub size : Str → Msg → ℕ
  unfolding edns_size
  size proto r = edns_size proto (advertised (is_edns0 r))

  unfoldable pub edns_subnet_for_request : Msg → Option Subnet
  unfolding find_subnet
  edns_subnet_for_request req = elim (is_edns0 req) [ none ↦ none | some o ↦ find_subnet o.options ]

  unfoldable pub set_edns : Msg → Msg → Bool → Msg
  unfolding edns_subnet_for_request edns_options
  set_edns request response ecs_global = elim (is_edns0 request) [
    | none ↦ response
    | some o ↦ record response {
      extra =
          response.extra
          ++ some (
              opt_record (record {
                name = b'.' ∷ [];
                rrtype = type_opt;
                udp_size = o.udp_size;
                options = edns_options ecs_global response.rcode (edns_subnet_for_request request);
              }))
            ∷ [];
    }
  ]

  unfoldable pub write_dns_code : Str → Msg → ℕ → Msg
  write_dns_code protocol r code =
      let msg = record (set_reply empty_msg r) {
        recursion_desired = true;
        recursion_available = true;
        rcode = code;
      } in
      set_edns r (truncate (size protocol r) msg) true

  unfoldable pub write_dns_response : Str → Msg → Msg → Msg
  write_dns_response protocol r msg =
      let reply = record (set_reply msg r) { authoritative = true; recursion_available = true } in
      set_edns r (truncate (size protocol r) reply) true
