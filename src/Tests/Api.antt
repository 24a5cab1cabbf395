-- ===== src/Tests/Api.antt =====
-- The address service at concrete inputs.
use address_monitor.Prelude.{
  ◌≡◌, refl, true, false, none, List, [], ◌∷◌, Text, bytes, text_eq, to_upper,
}
use address_monitor.Prelude.{to_lower}
use address_monitor.Prelude.Strings.{has_prefix, trim_space, trim_right, trim_left, is_space}
use address_monitor.AddrCodec.{codec_of, normalize}
use address_monitor.Api.Address.{AddressState, BatchResp, batch_create, ok}
use address_monitor.Tests.Samples.{base, table}

abbrev state : AddressState
state = record {
  table = table;
  redis = record { hot = λ c. []; last_active = λ c a. none; incremental = λ c. [] };
  sub_cache = λ k. none;
  events = [];
}

-- Three spellings of two addresses.
abbrev spellings : List Text
spellings = bytes "0xAA" ∷ bytes " 0xaa" ∷ bytes "0xBB" ∷ []

abbrev batch : BatchResp
batch = record { total = 2; success = []; fail = bytes "0xaa" ∷ bytes "0xbb" ∷ [] }

-- The store refuses the batch.
batch_refused :
    (batch_create base (λ i. true) false 1 (bytes "ETH") spellings [] state).0 ≡ ok batch
unfolding batch_create normalize codec_of text_eq to_upper has_prefix to_lower trim_space trim_right
    trim_left is_space
batch_refused = refl
