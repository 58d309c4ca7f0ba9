-- ===== src/Gateway/Bodies.antt =====
-- src/gateway/bounded_body.rs, and the collection of a response in src/gateway/routes.rs: bodies
-- are read under a limit. Sizes are those of bytes in memory, so that their sums fit into u64.
use toche.Prelude.{
  ℕ, ◌+◌, ◌≤◌, List, [], ◌∷◌, ◌++◌, Option, none, some, true, if◌then◌else◌, ltb, leb, length,
  length-append, ◌≡◌, ◌↔◌, refl, arith, Bool-cases, inl, inr, append_assoc, append-nil, ap, ◌∙◌,
  sym, Option-cases,
}

-- A frame of a request's body: bytes, trailers, or a failed read.
pub data Frame : Type 0 where
  data_frame : List ℕ → Frame
  trailers : Frame
  failed_frame : Frame

-- `Ok`, or the response with status 413 or 400.
pub data BodyResult : Type 0 where
  body : List ℕ → BodyResult
  payload_too_large : BodyResult
  bad_request : BodyResult

unfoldable pub read_frames : ℕ → List ℕ → List Frame → BodyResult
read_frames max_bytes buf [] = body buf
read_frames max_bytes buf (data_frame chunk ∷ frames) =
    let rest = read_frames max_bytes (buf ++ chunk) frames in
    if ltb max_bytes (length buf + length chunk) then payload_too_large else rest
read_frames max_bytes buf (trailers ∷ frames) = read_frames max_bytes buf frames
read_frames max_bytes buf (failed_frame ∷ frames) = bad_request

-- With the Content-Length header, where it holds a number.
unfoldable pub read_body_limited : Option ℕ → List Frame → ℕ → BodyResult
unfolding read_frames
read_body_limited none frames max_bytes = read_frames max_bytes [] frames
read_body_limited (some cl) frames max_bytes =
    if ltb max_bytes cl then payload_too_large else read_frames max_bytes [] frames

-- The bytes that a request sent, if no read failed.
abbrev pub sent : List Frame → Option (List ℕ)
sent [] = some []
sent (data_frame chunk ∷ frames) = elim (sent frames) [
  | none ↦ none
  | some rest ↦ some (chunk ++ rest)
]
sent (trailers ∷ frames) = sent frames
sent (failed_frame ∷ frames) = none

-- What comes of the frames: their bytes behind the buffer, where none failed and they fit.
read_frames_ok :
    (max_bytes : ℕ) (buf : List ℕ) (frames : List Frame) (rest : List ℕ)
    → sent frames ≡ some rest
    → length buf + length rest ≤ max_bytes
    → read_frames max_bytes buf frames ≡ body (buf ++ rest)
unfolding read_frames
read_frames_ok max_bytes buf [] rest s fits = ground (arith, append-nil buf)
read_frames_ok max_bytes buf (data_frame chunk ∷ frames) rest s fits =
    elim (Option-cases (sent frames)) [
      | inl failed ↦ absurd (ground (arith, s, failed))
      | inr (tail, split) ↦ ground (
        arith,
        s,
        split,
        length-append buf chunk,
        length-append chunk tail,
        append_assoc buf chunk tail,
        read_frames_ok max_bytes (buf ++ chunk) frames tail split,
      )
    ]
read_frames_ok max_bytes buf (trailers ∷ frames) rest s fits =
    read_frames_ok max_bytes buf frames rest s fits
read_frames_ok max_bytes buf (failed_frame ∷ frames) rest s fits = absurd cc

read_frames_sound :
    (max_bytes : ℕ) (buf : List ℕ) (frames : List Frame) (b : List ℕ)
    → length buf ≤ max_bytes
    → read_frames max_bytes buf frames ≡ body b
    → (rest : List ℕ) × (sent frames ≡ some rest) × (b ≡ buf ++ rest) × (length b ≤ max_bytes)
unfolding read_frames
read_frames_sound max_bytes buf [] b fits e =
    ([], refl, ground (arith, e, append-nil buf), ground (arith, e))
read_frames_sound max_bytes buf (data_frame chunk ∷ frames) b fits e =
    elim (Bool-cases (ltb max_bytes (length buf + length chunk))) [
      | inl over ↦ absurd (ground (arith, over, e))
      | inr within ↦
          let (tail, split, whole, bound) =
            read_frames_sound max_bytes (buf ++ chunk) frames b
              (ground (arith, within, length-append buf chunk)) (rw within at e) in
          (chunk ++ tail, rw split refl, whole ∙ append_assoc buf chunk tail, bound)
    ]
read_frames_sound max_bytes buf (trailers ∷ frames) b fits e =
    read_frames_sound max_bytes buf frames b fits e
read_frames_sound max_bytes buf (failed_frame ∷ frames) b fits e = absurd cc

frames_iff :
    (max_bytes : ℕ) (frames : List Frame) (b : List ℕ)
    → (read_frames max_bytes [] frames ≡ body b) ↔ ((sent frames ≡ some b) × (length b ≤ max_bytes))
frames_iff max_bytes frames b = (
  λ e.
      let (rest, all_sent, whole, bound) =
        read_frames_sound max_bytes [] frames b (omega arith) e in
      (all_sent ∙ ap (λ t. some t) (sym whole), bound),
  λ (s, fits). read_frames_ok max_bytes [] frames b s (omega arith),
)

-- A request's body is read exactly where its declared length, if any, is within the limit, no
-- frame fails and the bytes sent are within the limit; what is read is then the bytes sent.
pub read_body_limited_iff :
    (content_length : Option ℕ) (frames : List Frame) (max_bytes : ℕ) (b : List ℕ)
    → (read_body_limited content_length frames max_bytes ≡ body b) ↔ (
        (elim content_length [ none ↦ true | some cl ↦ leb cl max_bytes ] ≡ true)
        × (sent frames ≡ some b)
        × (length b ≤ max_bytes))
unfolding read_body_limited
read_body_limited_iff none frames max_bytes b = ground (arith, frames_iff max_bytes frames b)
read_body_limited_iff (some cl) frames max_bytes b = ground (arith, frames_iff max_bytes frames b)

-- An item of a response's stream: bytes, or an error, which the gateway only logs.
pub data Item : Type 0 where
  bytes : List ℕ → Item
  stream_error : Item

-- The loop of `forward_to_upstream`: nothing where the response is refused as too large.
unfoldable pub collect : ℕ → List ℕ → List Item → Option (List ℕ)
collect max collected [] = some collected
collect max collected (bytes chunk ∷ items) =
    let rest = collect max (collected ++ chunk) items in
    if ltb max (length collected + length chunk) then none else rest
collect max collected (stream_error ∷ items) = collect max collected items

abbrev pub received : List Item → List ℕ
received [] = []
received (bytes chunk ∷ items) = chunk ++ received items
received (stream_error ∷ items) = received items

collect_lem :
    (max : ℕ) (collected : List ℕ) (items : List Item)
    → length collected ≤ max
    → collect max collected items ≡ (
        if ltb max (length collected + length (received items))
        then none
        else some (collected ++ received items))
unfolding collect
collect_lem max collected [] fits = ground (arith, append-nil collected)
collect_lem max collected (bytes chunk ∷ items) fits = ground (
  arith,
  length-append collected chunk,
  length-append chunk (received items),
  append_assoc collected chunk (received items),
  collect_lem max (collected ++ chunk) items,
)
collect_lem max collected (stream_error ∷ items) fits = collect_lem max collected items fits

-- A response is passed on exactly where the bytes that arrived are within the limit; what is
-- passed on is then these bytes, also where the stream failed between them.
pub collect-received :
    (max : ℕ) (items : List Item)
    → collect max [] items
      ≡ (if ltb max (length (received items)) then none else some (received items))
collect-received max items = ground (arith, collect_lem max [] items)
