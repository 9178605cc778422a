-- ===== src/Shared.antt =====
-- crates/walnut-shared/src/lib.rs: networks and chain ids, the ids of calls, links to the web app,
-- texts in felts and compiler versions. The environment's URL of the web app, the encoding of URLs
-- and the test that a text is a felt in hexadecimal are parameters.
pub mod Version
pub mod Samples
use starkloupe_server.Common.{
  ℕ, zero, suc, ◌+◌, ◌-◌, ◌*◌, ◌/◌, ◌%◌, ◌^◌, Text, text_eq, text_beq, codes, contains, Bool, true,
  false, not, ◌&&◌, ◌||◌, Option, none, some, List, [], ◌∷◌, ◌++◌, map, ltb, leb, nat_beq, nat_eq,
  if◌then◌else◌, length,
}
use starkloupe_server.Common.Texts.{
  split, strip_prefix, starts_with, join, trim_start_matches, decimal, drop_plus, print_decimal,
}
use starkloupe_server.Common.Run.{Run, done, stop, panicked, rejected, out_of_fuel, ◌>>=◌}

pub data ENetwork : Type 0 where
  starknet ethereum : ENetwork

pub data EChainId : Type 0 where
  starknet_mainnet starknet_sepolia ethereum_mainnet ethereum_sepolia : EChainId

-- The variants of starknet_api's `ChainId` that the code names, and one for the rest.
pub data ChainId : Type 0 where
  mainnet sepolia : ChainId
  other : Text → ChainId
  unnamed : ChainId

-- `Display`
unfoldable pub network_name : ENetwork → Text
network_name starknet = codes "starknet"
network_name ethereum = codes "ethereum"

-- `From<EChainId>`
unfoldable pub from_e_chain : EChainId → ChainId
from_e_chain starknet_mainnet = mainnet
from_e_chain starknet_sepolia = sepolia
from_e_chain ethereum_mainnet = other (codes "eth_mainnet")
from_e_chain ethereum_sepolia = other (codes "eth_sepolia")

-- `TryFrom<ChainId>`
unfoldable pub try_from_chain : ChainId → Option EChainId
try_from_chain mainnet = some starknet_mainnet
try_from_chain sepolia = some starknet_sepolia
try_from_chain (other s) =
    if text_beq s (codes "eth_mainnet")
    then some ethereum_mainnet
    else if text_beq s (codes "eth_sepolia")
    then some ethereum_sepolia
    else none
try_from_chain unnamed = none

-- `to_lowercase`, on ASCII; no other character has a lower case among the letters of the names below.
abbrev pub to_lowercase : Text → Text
to_lowercase s = map (λ c. if leb b'A' c && leb c b'Z' then c + 32 else c) s

abbrev pub mainnet_names : List Text
mainnet_names =
    codes "0x534e5f4d41494e" ∷ codes "sn_mainnet" ∷ codes "sn_main" ∷ codes "SN_MAINNET" ∷ []

abbrev pub sepolia_names : List Text
sepolia_names = codes "0x534e5f5345504f4c4941" ∷ codes "sn_sepolia" ∷ codes "SN_SEPOLIA" ∷ []

abbrev pub chain_of_name : Text → Option (EChainId × ENetwork)
chain_of_name s =
    if contains s mainnet_names
    then some (starknet_mainnet, starknet)
    else if contains s sepolia_names
    then some (starknet_sepolia, starknet)
    else if contains s (codes "eth_mainnet" ∷ codes "ETH_MAINNET" ∷ [])
    then some (ethereum_mainnet, ethereum)
    else if contains s (codes "eth_sepolia" ∷ codes "ETH_SEPOLIA" ∷ [])
    then some (ethereum_sepolia, ethereum)
    else none

unfoldable pub extract_chain_id : Text → Option (EChainId × ENetwork)
extract_chain_id chain_id = chain_of_name (to_lowercase chain_id)

unfoldable pub chain_id_to_readable_string : ChainId → Run Text
chain_id_to_readable_string mainnet = done (codes "sn_mainnet")
chain_id_to_readable_string sepolia = done (codes "sn_sepolia")
chain_id_to_readable_string (other s) = done s
chain_id_to_readable_string unnamed = stop panicked

unfoldable pub chain_id_to_url_format : ChainId → Run Text
chain_id_to_url_format mainnet = done (codes "SN_MAINNET")
chain_id_to_url_format sepolia = done (codes "SN_SEPOLIA")
chain_id_to_url_format (other s) = done s
chain_id_to_url_format unnamed = stop panicked

-- The chain of the other network with the same role.
unfoldable pub to_chain_id : EChainId → EChainId
to_chain_id ethereum_mainnet = starknet_mainnet
to_chain_id ethereum_sepolia = starknet_sepolia
to_chain_id starknet_mainnet = ethereum_mainnet
to_chain_id starknet_sepolia = ethereum_sepolia

unfoldable pub get_voyager_api_url : ChainId → Option Text
get_voyager_api_url mainnet = some (codes "https://api.voyager.online/beta/")
get_voyager_api_url sepolia = some (codes "https://sepolia-api.voyager.online/beta/")
get_voyager_api_url (other s) = none
get_voyager_api_url unnamed = none

unfoldable pub get_contract_call_id : Option Text → ℕ → Text
get_contract_call_id (some parent) index = parent ++ (codes "-" ++ print_decimal index)
get_contract_call_id none index = print_decimal index

unfoldable pub get_internal_function_call_id : Text → ℕ → Text
get_internal_function_call_id call fp = call ++ (codes "-fp-" ++ print_decimal fp)

module _ (walnut_app_url : Text) (encode : Text → Text) where
  abbrev pub block_param : Option ℕ → List Text
  block_param none = []
  block_param (some n) = (codes "blockNumber=" ++ print_decimal n) ∷ []

  abbrev pub rpc_param : ChainId → Text → List Text
  rpc_param mainnet rpc_url = []
  rpc_param sepolia rpc_url = []
  rpc_param (other s) rpc_url = (codes "rpcUrl=" ++ encode rpc_url) ∷ []
  rpc_param unnamed rpc_url = (codes "rpcUrl=" ++ encode rpc_url) ∷ []

  unfoldable pub simulation_deep_link : Text → List Text → ℕ → ChainId → Option ℕ → Text → Run Text
  unfolding chain_id_to_url_format
  simulation_deep_link sender calldata version chain_id block_number rpc_url = do
    chain ← chain_id_to_url_format chain_id
    done (
        walnut_app_url
        ++ (codes "/simulations?"
            ++ join (codes "&") (
                (codes "senderAddress=" ++ sender)
                ∷ (codes "calldata=" ++ encode (join (codes ",") calldata))
                ∷ (codes "transactionVersion=" ++ print_decimal version)
                ∷ (codes "chainId=" ++ chain)
                ∷ (block_param block_number ++ rpc_param chain_id rpc_url))))

  abbrev pub text_or_empty : Option Text → Text
  text_or_empty none = []
  text_or_empty (some t) = t

  unfoldable pub transaction_deep_link : Option Text → Option Text → Text → Text
  transaction_deep_link (some chain) rpc_url tx_hash =
      walnut_app_url ++ (codes "/transactions?chainId=" ++ (chain ++ (codes "&txHash=" ++ tx_hash)))
  transaction_deep_link none rpc_url tx_hash =
      walnut_app_url
      ++ (codes "/transactions?rpcUrl="
          ++ (encode (text_or_empty rpc_url) ++ (codes "&txHash=" ++ tx_hash)))

-- `try_into` of a number to `u32`
abbrev pub as_u32 : ℕ → Option ℕ
as_u32 n = if ltb n (2 ^ 32) then some n else none

abbrev pub fits_u32 : Option ℕ → Option ℕ
fits_u32 none = none
fits_u32 (some n) = as_u32 n

-- `parse::<u32>()`
unfoldable pub parse_u32 : Text → Option ℕ
parse_u32 s = if text_beq (drop_plus s) [] then none else fits_u32 (decimal 0 (drop_plus s))

abbrev pub three : Option ℕ → Option ℕ → Option ℕ → Option (ℕ × ℕ × ℕ)
three (some a) (some b) (some c) = some (a, b, c)
three _ _ _ = none

-- Exactly three parts, each a number.
abbrev pub parse_parts : List Text → Option (ℕ × ℕ × ℕ)
parse_parts (a ∷ b ∷ c ∷ []) = three (parse_u32 a) (parse_u32 b) (parse_u32 c)
parse_parts _ = none

unfoldable pub parse_version_string_to_tuple : Text → Option (ℕ × ℕ × ℕ)
unfolding split parse_u32
parse_version_string_to_tuple version =
    parse_parts (split b'.' (trim_start_matches (λ c. nat_beq c b'v') version))

unfoldable pub tuple_to_version_string : ℕ × ℕ × ℕ → Text
tuple_to_version_string (a, b, c) =
    print_decimal a ++ (codes "." ++ (print_decimal b ++ (codes "." ++ print_decimal c)))

unfoldable pub extract_cairo_version_from_program : List ℕ → Option (ℕ × ℕ × ℕ)
extract_cairo_version_from_program (_ ∷ _ ∷ _ ∷ major ∷ minor ∷ patch ∷ rest) =
    three (as_u32 major) (as_u32 minor) (as_u32 patch)
extract_cairo_version_from_program _ = none
