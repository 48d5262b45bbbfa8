-- ===== src/Tests/Replies.antt =====
-- The replies of internal/resolver/common/dns.go.
use polaris_sidecar.Prelude.{[], refl, some, ◌∷◌, ◌≡◌}
use polaris_sidecar.Qname.{dot}
use polaris_sidecar.Resolver.Dns.{
  Msg, Opt, Subnet, empty_msg, opt_record, other_option, subnet_option,
}
use polaris_sidecar.Resolver.Dns.Simple.{simple_lib}
use polaris_sidecar.Resolver.Response.{find_subnet}

abbrev subnet : Subnet
subnet = record {
  code = 8;
  family = 1;
  source_netmask = 24;
  source_scope = 0;
  address = 10 ∷ 0 ∷ 0 ∷ 0 ∷ [];
}

abbrev opt : Opt
opt = record {
  name = dot;
  rrtype = 41;
  udp_size = 1232;
  options = other_option 10 ∷ subnet_option subnet ∷ [];
}

abbrev req : Msg
req = record empty_msg { id = 7; extra = some (opt_record opt) ∷ [] }

abbrev resp : Msg
resp = record empty_msg { rcode = 3 }

advertised_found : simple_lib.is_edns0 req ≡ some opt
unfolding simple_lib
advertised_found = refl

opt_subnet : find_subnet opt.options ≡ some subnet
unfolding find_subnet
opt_subnet = refl
