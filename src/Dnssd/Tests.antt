-- ===== src/Dnssd/Tests.antt =====
-- Service types at work: tests, and the theorem at a concrete input.
use sig0lease.Base.{◌≡◌, refl, some, ◌∷◌, ◌++◌, Bytes, bytes, same, empty, ok, err}
use sig0lease.Name.{dot, fold, labels, split, cut_first_label}
use sig0lease.Dnssd.{
  service_type_from_service_name, service_type_from_instance_name, is_service_label, is_proto_label,
  validate_service_type, validate_service_name_syntax, bad_hyphen, not_two_labels,
}
use sig0lease.Dnssd.Types.{service_type-accepted}

abbrev http : Bytes
http = bytes "_Http._tcp"

accepts_http : validate_service_type http ≡ ok tt
unfolding validate_service_type validate_service_name_syntax labels split fold is_proto_label same
accepts_http = refl

refuses_hyphens : validate_service_type (bytes "_a--b._udp") ≡ err bad_hyphen
unfolding validate_service_type validate_service_name_syntax labels split fold is_proto_label same
    empty
refuses_hyphens = refl

refuses_three : validate_service_type (bytes "_v._wg._udp") ≡ err not_two_labels
unfolding validate_service_type labels split
refuses_three = refl

reads_instance :
    service_type_from_instance_name (bytes "My Printer._ipp._tcp.Example.")
    ≡ some (bytes "_ipp._tcp")
unfolding service_type_from_instance_name service_type_from_service_name cut_first_label labels
    split fold is_service_label is_proto_label same
reads_instance = refl

service_type-accepted_example :
    service_type_from_service_name (http ++ (dot ∷ bytes "example.com.")) ≡ some (fold http)
service_type-accepted_example = service_type-accepted http (bytes "example.com.") accepts_http
