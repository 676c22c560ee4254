-- ===== src/Error.antt =====
-- src/error.rs: the errors, their conversions and their text, and the outcome of fallible code.
use Prim.Native.String.{◌++◌}
use bewallet.Common.{String}

-- An error value of another crate, by the text that it prints.
abbrev pub ForeignError : Type 0
ForeignError = String

pub data Error : Type 0 where
  generic : String → Error
  invalid_address unknown_call : Error
  invalid_mnemonic : ForeignError → Error
  insufficient_funds invalid_amount empty_addressees asset_empty invalid_headers send_all : Error
  addr_parse : String → Error
  bitcoin bitcoin_hashes bitcoin_bip32_error bitcoin_consensus : ForeignError → Error
  json json_from std_io_error hex client_error slice_conversion_error : ForeignError → Error
  elements_encode elements_pset pset_blind_error send secp256k1 secp256k1_zkp : ForeignError → Error

-- `fn_err` and `impl From<String> for Error`.
abbrev pub fn_err : String → Error
fn_err str = generic str

-- The macro `impl_error!`: the error becomes its own text.
abbrev pub from_text : ForeignError → Error
from_text err = generic err

-- `impl From<AddrParseError> for Error` forgets the error.
pub from_addr_parse : ForeignError → Error
from_addr_parse _err = addr_parse "SocketAddr parse failure with no additional info"

-- The other crates whose errors `?` converts, by the type of the error.
pub data Source : Type 0 where
  from_serde_json from_bip32 from_io from_consensus from_hex_text from_electrum from_hashes : Source
  from_slice from_encode from_pset from_pset_blind from_send from_secp256k1 from_zkp : Source
  from_bip39 : Source

-- The other implementations of `From`: each wraps the error as it is.
abbrev pub from_error : Source → ForeignError → Error
from_error from_serde_json e = json_from e
from_error from_slice e = slice_conversion_error e
from_error from_bip32 e = bitcoin_bip32_error e
from_error from_io e = std_io_error e
from_error from_consensus e = bitcoin_consensus e
from_error from_hex_text e = hex e
from_error from_electrum e = client_error e
from_error from_hashes e = bitcoin_hashes e
from_error from_encode e = elements_encode e
from_error from_pset e = elements_pset e
from_error from_pset_blind e = pset_blind_error e
from_error from_send e = send e
from_error from_secp256k1 e = secp256k1 e
from_error from_zkp e = secp256k1_zkp e
from_error from_bip39 e = invalid_mnemonic e

pub display : Error → String
display (generic strerr) = strerr
display (invalid_mnemonic e) = "invalid mnemonic: " ++ e
display insufficient_funds = "insufficient funds"
display send_all = "sendall error"
display invalid_address = "invalid address"
display invalid_amount = "invalid amount"
display invalid_headers = "invalid headers"
display empty_addressees = "addressees cannot be empty"
display asset_empty = "asset_tag cannot be empty in liquid"
display unknown_call = "unknown call"
display (addr_parse addr) = "could not parse SocketAddr `" ++ (addr ++ "`")
display (bitcoin e) = "bitcoin: " ++ e
display (bitcoin_hashes e) = "bitcoin_hashes: " ++ e
display (bitcoin_bip32_error e) = "bip32: " ++ e
display (bitcoin_consensus e) = "consensus: " ++ e
display (json e) = "json: " ++ e
display (json_from e) = "json from: " ++ e
display (std_io_error e) = "io: " ++ e
display (hex e) = "hex: " ++ e
display (client_error e) = "client: " ++ e
display (slice_conversion_error e) = "slice: " ++ e
display (elements_encode e) = "el_err: " ++ e
display (elements_pset e) = "el_pset_err: " ++ e
display (pset_blind_error e) = "pset_blind_err: " ++ e
display (send e) = "send_err: " ++ e
display (secp256k1 e) = "Secp256k1_err: " ++ e
display (secp256k1_zkp e) = "Secp256k1_zkp_err: " ++ e
