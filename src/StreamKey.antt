-- ===== src/StreamKey.antt =====
-- receiver.go: streamKey and podUIDFromStreamKey.
-- `/` does not occur in a namespace, a pod name, a UID or a container name, says the source.
use k8spodlogreceiver.Prelude.{
  ℕ, ◌≡◌, refl, ap, ◌≢◌, List, [], ◌∷◌, ◌++◌, arith, ◌==◌, if◌then◌else◌, All, Bytes, bytes_eq,
}

abbrev pub slash : ℕ
slash = b'/'

-- streamKey
unfoldable pub stream_key : Bytes → Bytes → Bytes → Bytes → Bytes
stream_key namespace pod_name pod_uid container_name =
    namespace ++ (slash ∷ (pod_name ++ (slash ∷ (pod_uid ++ (slash ∷ container_name)))))

-- strings.Split(key, "/"): the first part, and the others.
unfoldable pub split_slash : Bytes → Bytes × List Bytes
split_slash [] = ([], [])
split_slash (c ∷ cs) =
    let (first, others) = split_slash cs in
    if c == slash then ([], first ∷ others) else (c ∷ first, others)

third_of_four : Bytes × List Bytes → Bytes
third_of_four (a, b ∷ c ∷ d ∷ []) = c
third_of_four (a, _) = []

-- podUIDFromStreamKey
unfoldable pub pod_uid_from_stream_key : Bytes → Bytes
unfolding split_slash third_of_four
pod_uid_from_stream_key key = third_of_four (split_slash key)

abbrev pub NoSlash : Bytes → Type 0
NoSlash = All (λ c. c ≢ slash)

split_slash_last : (xs : Bytes) → NoSlash xs → split_slash xs ≡ (xs, [])
unfolding split_slash
split_slash_last [] h = refl
split_slash_last (x ∷ xs) h = ground (arith, split_slash_last xs h.1)

split_slash-append :
    (xs rest : Bytes)
    → NoSlash xs
    → split_slash (xs ++ (slash ∷ rest)) ≡ (xs, (split_slash rest).0 ∷ (split_slash rest).1)
unfolding split_slash
split_slash-append [] rest h = ground arith
split_slash-append (x ∷ xs) rest h = ground (arith, split_slash-append xs rest h.1)

split_slash-stream_key :
    (namespace pod_name pod_uid container_name : Bytes)
    → NoSlash namespace
    → NoSlash pod_name
    → NoSlash pod_uid
    → NoSlash container_name
    → split_slash (stream_key namespace pod_name pod_uid container_name)
      ≡ (namespace, pod_name ∷ pod_uid ∷ container_name ∷ [])
unfolding stream_key
split_slash-stream_key n p u c hn hp hu hc = ground (
  arith,
  split_slash-append n (p ++ (slash ∷ (u ++ (slash ∷ c)))) hn,
  split_slash-append p (u ++ (slash ∷ c)) hp,
  split_slash-append u c hu,
  split_slash_last c hc,
)

-- Of names with no slash, the pod UID is recovered from the key.
pub pod_uid-stream_key :
    (namespace pod_name pod_uid container_name : Bytes)
    → NoSlash namespace
    → NoSlash pod_name
    → NoSlash pod_uid
    → NoSlash container_name
    → pod_uid_from_stream_key (stream_key namespace pod_name pod_uid container_name) ≡ pod_uid
unfolding pod_uid_from_stream_key
pod_uid-stream_key n p u c hn hp hu hc =
    ap third_of_four (split_slash-stream_key n p u c hn hp hu hc)

-- Of names with no slash, two keys are equal only if all four names are, so that two containers,
-- or two pods that had the same name one after the other, never share one.
pub stream_key_injective :
    (n p u c n' p' u' c' : Bytes)
    → NoSlash n × NoSlash p × NoSlash u × NoSlash c
    → NoSlash n' × NoSlash p' × NoSlash u' × NoSlash c'
    → stream_key n p u c ≡ stream_key n' p' u' c'
    → (n ≡ n') × (p ≡ p') × (u ≡ u') × (c ≡ c')
stream_key_injective n p u c n' p' u' c' h h' e = ground (
  arith,
  split_slash-stream_key n p u c h.0 h.1 h.2 h.3,
  split_slash-stream_key n' p' u' c' h'.0 h'.1 h'.2 h'.3,
  ap split_slash e,
)
