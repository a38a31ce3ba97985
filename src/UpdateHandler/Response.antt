-- ===== src/UpdateHandler/Response.antt =====
-- handlers/handlers.go (leaseResponse) and handlers/opcode5_handle.go (buildSuccessResponse): the
-- Pseudo section of the response to a request that was processed.
use sig0lease.Base.{ℕ, List, [], ◌++◌, map, Result, ok, err}
use sig0lease.LeaseOption.{
  OptionError, Edns0, erfc3597, other_option, SectionRr, option_rr, other_rr, encode_8byte, encode,
}
use sig0lease.UpdateHandler.{Note}

-- An option stands in the section by itself: the library builds the OPT RR.
unfoldable pub as_pseudo : Edns0 → SectionRr
as_pseudo (erfc3597 code text) = option_rr code text
as_pseudo other_option = other_rr

-- An option that does not encode is left out.
unfoldable pub encoded_options : Result OptionError (List Edns0) → List Edns0
encoded_options (err e) = []
encoded_options (ok options) = options

unfoldable pub lease_response : ℕ → ℕ → List SectionRr
lease_response lease key_lease =
    map as_pseudo (encoded_options (encode (encode_8byte lease key_lease) []))

-- The notes are options of another code.
unfoldable pub build_success_response : List Note → ℕ → ℕ → List SectionRr
build_success_response notes lease key_lease =
    lease_response lease key_lease ++ map (λ note. other_rr) notes
