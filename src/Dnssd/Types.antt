-- ===== src/Dnssd/Types.antt =====
-- A service type that the requester accepts, the registrar reads back.
use sig0lease.Base.{
  ℕ, ◌≡◌, refl, sym, ap, ◌∙◌, true, some, List, [], ◌∷◌, ◌++◌, map, arith, ◌==◌, Bytes, ok,
}
use mathlib.Core.Path.{ap₂}
use sig0lease.Name.{dot, fold, fold_byte, labels, split, join}
use sig0lease.Name.Fold.{fold-eq-map}
use sig0lease.Name.Labels.{split-cons, join-split}
use sig0lease.Name.Domains.{fold_all, split-map, labels-in_domain}
use sig0lease.Dnssd.{
  underscore, is_service_label, is_proto_label, service_of_labels, service_type_from_service_name,
  validate_labels, validate_service_name_syntax, validate_service_type,
}

-- The shape of a type that was accepted.
record TwoLabels (ls : List Bytes) : Type 0 where
  service : Bytes
  proto : Bytes
  are : ls ≡ service ∷ proto ∷ []
  is_service : is_service_label (map fold_byte service) ≡ true
  is_proto : is_proto_label (map fold_byte proto) ≡ true

service_label :
    (c : ℕ) (service : Bytes)
    → (c == underscore) ≡ true
    → validate_service_name_syntax service ≡ ok tt
    → is_service_label (map fold_byte (c ∷ service)) ≡ true
unfolding validate_service_name_syntax is_service_label fold_byte
service_label c [] e h = cc
service_label c (d ∷ cs) e h = ground arith

two_labels : (ls : List Bytes) → validate_labels ls ≡ ok tt → TwoLabels ls
unfolding validate_labels
two_labels [] h = cc
two_labels (service ∷ []) h = cc
two_labels (service ∷ proto ∷ x ∷ rest) h = cc
two_labels ([] ∷ proto ∷ []) h = absurd (ground arith)
two_labels ((c ∷ service) ∷ proto ∷ []) h = record {
  service = c ∷ service;
  proto = proto;
  are = refl;
  is_service = service_label c service (ground arith) (ground arith);
  is_proto = ap is_proto_label (sym (fold-eq-map proto)) ∙ ground arith;
}

labels-two : (s : Bytes) (ls : List Bytes) → labels s ≡ ls → (ls ≡ [] → ⊥) → split s ≡ ls
unfolding labels
labels-two [] ls h ne = absurd (ne (sym h))
labels-two (c ∷ s) ls h ne = h

service_of_two :
    (service proto : Bytes) (ds : List Bytes) (l : Bytes)
    → is_service_label service ≡ true
    → is_proto_label proto ≡ true
    → service_of_labels ((service ∷ proto ∷ []) ++ (l ∷ ds)) ≡ some (service ++ (dot ∷ proto))
unfolding service_of_labels
service_of_two service proto ds l h k = rw (h, k) refl

fold_of_two :
    (s service proto : Bytes)
    → split s ≡ service ∷ proto ∷ []
    → map fold_byte service ++ (dot ∷ map fold_byte proto) ≡ fold s
unfolding join
fold_of_two s service proto h =
    ap join (sym (ap fold_all h) ∙ sym (split-map s))
    ∙ join-split (map fold_byte s)
    ∙ sym (fold-eq-map s)

-- What `ValidateServiceType` accepts from a requester, `ServiceTypeFromServiceName` reads back, up
-- to US-ASCII case, from the service name in any domain: the registrar's check is no stricter.
pub service_type-accepted :
    (svc_type domain : Bytes)
    → validate_service_type svc_type ≡ ok tt
    → service_type_from_service_name (svc_type ++ (dot ∷ domain)) ≡ some (fold svc_type)
unfolding validate_service_type service_type_from_service_name
service_type-accepted svc_type domain h =
    let shape = two_labels (labels svc_type) h in
    let parts : split svc_type ≡ shape.service ∷ shape.proto ∷ [] =
      labels-two svc_type _ shape.are (λ q. cc) in
    let (l, ds, q) = split-cons domain in
    ap service_of_labels
      (labels-in_domain svc_type domain ∙ ap₂ (λ x y. fold_all x ++ fold_all y) parts q)
    ∙ service_of_two (map fold_byte shape.service) (map fold_byte shape.proto) (fold_all ds)
        (map fold_byte l) shape.is_service shape.is_proto
    ∙ ap some (fold_of_two svc_type shape.service shape.proto parts)
