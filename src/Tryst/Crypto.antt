-- ===== src/Tryst/Crypto.antt =====
-- The primitives of src/protocols/tryst/crypto.rs as the repository publishes them: the logic is
-- withheld, and the bodies are stubs.
--
-- A byte is a number. What a random generator fills a buffer with is an argument.
use tryst_core_portfolio.Prelude.{ℕ, List, Result, ok}
use tryst_core_portfolio.Tryst.{EpochSecret}

abbrev pub Bytes : Type 0
Bytes = List ℕ

-- `From<[u8; 32]>`.
abbrev pub from_bytes : Bytes → EpochSecret
from_bytes bytes = record { bytes = bytes }

-- `generate_random`; `filled` is what `fill_bytes` writes.
abbrev pub generate_random : (filled : Bytes) → EpochSecret
generate_random filled = from_bytes filled

-- `generate`, with a generator that fills a buffer of some length and goes on.
abbrev pub generate : {Rng : Type 0} → (ℕ → Rng → Bytes × Rng) → Rng → EpochSecret × Rng
generate fill_bytes csprng =
    let (bytes, csprng') = fill_bytes 32 csprng in (from_bytes bytes, csprng')

abbrev pub to_bytes : EpochSecret → Bytes
to_bytes secret = secret.bytes

abbrev pub current_epoch : ℕ
current_epoch = 0

abbrev pub dht_key :
    {SecretKey EndpointId : Type 0} → (Bytes → SecretKey) → EpochSecret → EndpointId → SecretKey
dht_key key_of_bytes secret _ = key_of_bytes secret.bytes

-- `ratchet_secret`, which withholds the hash chain.
abbrev pub ratchet_secret : EpochSecret → EpochSecret
ratchet_secret secret = secret

abbrev pub calculate_sas : {EndpointId : Type 0} → EpochSecret → EndpointId → EndpointId → ℕ
calculate_sas secret _ _ = 0

abbrev pub encrypt : {E : Type 0} → EpochSecret → Bytes → Result Bytes E
encrypt secret plaintext = ok plaintext

abbrev pub decrypt : {E : Type 0} → EpochSecret → Bytes → Result Bytes E
decrypt secret ciphertext = ok ciphertext

abbrev pub encrypt_symmetric : {SecretKey E : Type 0} → SecretKey → Bytes → Result Bytes E
encrypt_symmetric _ plaintext = ok plaintext

abbrev pub decrypt_symmetric : {SecretKey E : Type 0} → SecretKey → Bytes → Result Bytes E
decrypt_symmetric _ ciphertext = ok ciphertext
