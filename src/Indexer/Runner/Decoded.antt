-- ===== src/Indexer/Runner/Decoded.antt =====
-- From the indexer to the decoder: the topics and the data of a log, written to a record and parsed
-- again.
use liquidity_scope.Prelude.{
  ℕ, suc, ◌+◌, ◌≡◌, refl, ap, true, false, none, some, List, [], ◌∷◌, map, arith, ltb, ◌==◌, nat_eq,
  list_eq, pair_eq, ok, err, length, All,
}
use liquidity_scope.Errors.{bad_data}
use liquidity_scope.Text.{Text}
use liquidity_scope.Chain.{Hash, Log}
use liquidity_scope.Dex.Abi.{Event, indexed_arguments, non_indexed}
use liquidity_scope.Dex.Library.{Ethereum}
use liquidity_scope.Dex.Events.{parse_topic_hashes, parse_indexed_topics, unpack_non_indexed}
use liquidity_scope.Indexer.Runner.{build_log_record}

-- What package hexutil and package common say of the texts that they print.
pub record ReadsBack (eth : Ethereum) : Type 0 where
  pub payload : (t : Text) → eth.hex_decode (eth.hex_encode t) ≡ some t
  pub hash : (h : Hash) → length h ≡ 32 → eth.hex_decode (eth.hash_hex h) ≡ some h
  pub bytes : (h : Hash) → length h ≡ 32 → eth.bytes_to_hash h ≡ h

abbrev pub AreHashes : List Hash → Type 0
AreHashes = All (λ (h : Hash). length h ≡ 32)

parse_topic_hashes-hash_hex :
    (eth : Ethereum) (hashes : List Hash)
    → ReadsBack eth
    → AreHashes hashes
    → parse_topic_hashes eth (map eth.hash_hex hashes) ≡ ok hashes
unfolding parse_topic_hashes
parse_topic_hashes-hash_hex eth [] back sizes = refl
parse_topic_hashes-hash_hex eth (h ∷ hashes) back (size, sizes) =
    let short : ltb 32 (length h) ≡ false = ground arith in
    rw (
      back.hash h size,
      short,
      parse_topic_hashes-hash_hex eth hashes back sizes,
      back.bytes h size,
    )

length-map :
    (eth : Ethereum) (hashes : List Hash) → length (map eth.hash_hex hashes) ≡ length hashes
length-map eth [] = refl
length-map eth (h ∷ hashes) = ap suc (length-map eth hashes)

-- Where the texts of hashes and data are read back, and the topics of a log are 32 bytes each and as
-- many as the event has indexed arguments and one more: of the record that the indexer writes for the
-- log, the decoder parses the very topics behind the first one, and it unpacks the very data.
pub parse-build_log_record :
    (eth : Ethereum) (event : Event) (chain_id : ℕ) (log : Log) (timestamp : ℕ) (ingested_at : Text)
    (topic0 : Hash) (topics : List Hash)
    → ReadsBack eth
    → log.topics ≡ topic0 ∷ topics
    → AreHashes topics
    → length topics ≡ length (indexed_arguments event.inputs)
    → let r = build_log_record eth chain_id log timestamp ingested_at in
      (parse_indexed_topics eth event r.topics ≡ ok topics)
      × (unpack_non_indexed eth event r.payload
          ≡ elim (eth.unpack_arguments (non_indexed event.inputs) log.payload) [
            | none ↦ err bad_data
            | some values ↦ ok values
          ])
unfolding parse_indexed_topics unpack_non_indexed build_log_record
parse-build_log_record eth event chain_id log timestamp ingested_at topic0 topics back e sizes
      count =
    let found = length (map eth.hash_hex (topic0 ∷ topics)) in
    let expected = length (indexed_arguments event.inputs) + 1 in
    let same : (found == expected) ≡ true = ground (arith, length-map eth topics) in
    (
      rw (e, same) (parse_topic_hashes-hash_hex eth topics back sizes),
      rw (back.payload log.payload, unpack_non_indexed) refl,
    )
