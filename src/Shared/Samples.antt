-- ===== src/Shared/Samples.antt =====
-- Tests of crates/walnut-shared/src/lib.rs and its theorem at a concrete version.
use starkloupe_server.Common.{Text, codes, none, some, [], ◌∷◌, ◌≡◌, refl, arith}
use starkloupe_server.Common.Texts.{print_decimal, split}
use starkloupe_server.Common.Run.{done}
use starkloupe_server.Shared.{
  EChainId, ENetwork, starknet, ethereum, starknet_mainnet, starknet_sepolia, ethereum_mainnet,
  ethereum_sepolia, mainnet, from_e_chain, try_from_chain, extract_chain_id, to_chain_id,
  chain_id_to_readable_string, chain_id_to_url_format, simulation_deep_link, transaction_deep_link,
  get_contract_call_id, get_internal_function_call_id, extract_cairo_version_from_program,
  parse_version_string_to_tuple, tuple_to_version_string, parse_u32,
}
use starkloupe_server.Shared.Version.{parse_version-print}

-- A chain goes to starknet_api's `ChainId` and back.
try_from-from : (e : EChainId) → try_from_chain (from_e_chain e) ≡ some e
unfolding try_from_chain from_e_chain
try_from-from starknet_mainnet = refl
try_from-from starknet_sepolia = refl
try_from-from ethereum_mainnet = refl
try_from-from ethereum_sepolia = refl

to_chain_id_twice : (e : EChainId) → to_chain_id (to_chain_id e) ≡ e
unfolding to_chain_id
to_chain_id_twice starknet_mainnet = refl
to_chain_id_twice starknet_sepolia = refl
to_chain_id_twice ethereum_mainnet = refl
to_chain_id_twice ethereum_sepolia = refl

abbrev e_network : EChainId → ENetwork
e_network starknet_mainnet = starknet
e_network starknet_sepolia = starknet
e_network ethereum_mainnet = ethereum
e_network ethereum_sepolia = ethereum

extract-readable :
    (e : EChainId)
    → (s : Text) × (chain_id_to_readable_string (from_e_chain e) ≡ done s)
      × (extract_chain_id s ≡ some (e, e_network e))
unfolding chain_id_to_readable_string from_e_chain extract_chain_id
extract-readable starknet_mainnet = (_, refl, refl)
extract-readable starknet_sepolia = (_, refl, refl)
extract-readable ethereum_mainnet = (_, refl, refl)
extract-readable ethereum_sepolia = (_, refl, refl)

extract_mixed : extract_chain_id (codes "Sn_MAIN") ≡ some (starknet_mainnet, starknet)
unfolding extract_chain_id
extract_mixed = refl

nested_call : get_contract_call_id (some (get_contract_call_id none 3)) 12 ≡ codes "3-12"
unfolding get_contract_call_id print_decimal
nested_call = refl

function_call : get_internal_function_call_id (codes "3") 45 ≡ codes "3-fp-45"
unfolding get_internal_function_call_id print_decimal
function_call = refl

simulation_link :
    simulation_deep_link
      (codes "w")
      (λ s. s)
      (codes "0x1")
      (codes "0x2" ∷ codes "0x3" ∷ [])
      3
      mainnet
      (some 9)
      []
    ≡ done (
        codes
          "w/simulations?senderAddress=0x1&calldata=0x2,0x3&transactionVersion=3&chainId=SN_MAINNET&blockNumber=9")
unfolding simulation_deep_link chain_id_to_url_format print_decimal
simulation_link = refl

transaction_link :
    transaction_deep_link (codes "w") (λ s. s) none (some (codes "r")) (codes "0x1")
    ≡ codes "w/transactions?rpcUrl=r&txHash=0x1"
unfolding transaction_deep_link
transaction_link = refl

version_prefix : parse_version_string_to_tuple (codes "v2.11.4") ≡ some (2, 11, 4)
unfolding parse_version_string_to_tuple parse_u32 split
version_prefix = refl

version_short : parse_version_string_to_tuple (codes "2.11") ≡ none
unfolding parse_version_string_to_tuple parse_u32 split
version_short = refl

version_wide : parse_version_string_to_tuple (codes "2.11.4294967296") ≡ none
unfolding parse_version_string_to_tuple parse_u32 split
version_wide = refl

program_version : extract_cairo_version_from_program (0 ∷ 0 ∷ 0 ∷ 2 ∷ 8 ∷ 1 ∷ []) ≡ some (2, 8, 1)
unfolding extract_cairo_version_from_program
program_version = refl

parse_version-print_example :
    parse_version_string_to_tuple (tuple_to_version_string (2, 11, 4)) ≡ some (2, 11, 4)
parse_version-print_example = parse_version-print 2 11 4 (omega arith) (omega arith) (omega arith)
