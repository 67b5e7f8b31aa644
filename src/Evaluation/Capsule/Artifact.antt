-- ===== src/Evaluation/Capsule/Artifact.antt =====
-- evaluation/capsule_artifacts.py: artifacts cut into parts. Payloads are lists of bytes.
-- `hashlib.sha256`, `json.dumps` and the test `int(s, 16)` are parameters.
pub mod Chunks
use jpapt_v2_2_inspection.Base.{
  ℕ, zero, suc, ◌+◌, ◌-◌, ◌*◌, ◌/◌, max, String, Bool, true, false, not, ◌&&◌, ◌||◌, Option, none,
  some, List, [], ◌∷◌, ◌++◌, Result, ok, err, ◌>>=◌, ◌>>◌, raise_if, ensure, ltb, ◌==◌,
  if◌then◌else◌, length, take, drop, str_eq,
}
use jpapt_v2_2_inspection.Base.Int.{ℤ, pos, negsuc, is_negative, leb_ℤ, to_ℕ}
use jpapt_v2_2_inspection.Base.Json.{Json, str, Fields, end, field, find}
use jpapt_v2_2_inspection.Base.Text.{codes}
use jpapt_v2_2_inspection.Evaluation.Models.{Float64}

abbrev pub default_artifact_chunk_size : ℕ
default_artifact_chunk_size = 1024 * 1024

abbrev pub max_embedded_artifact_bytes : ℕ
max_embedded_artifact_bytes = 8 * 1024 * 1024

pub data ArtifactError : Type 0 where
  empty_identity too_large bad_chunk_size bad_sha256_length bad_sha256 negative_size : ArtifactError

-- What the program takes from `hashlib`, `json` and Python's number and text conversions.
pub record Codec : Type 0 where
  pub sha256 : List ℕ → String
  pub dumps : Json → String
  pub loads : String → Option Json
  pub reads_hex : String → Bool
  pub lower : String → String
  pub to_float : Json → Float64

abbrev pub is_empty : String → Bool
is_empty s = str_eq s ""

pub record EmbeddedCapsuleArtifact : Type 0 where
  pub artifact_id : String
  pub name : String
  pub mime_type : String
  pub payload : List ℕ
  pub metadata : Fields
  pub chunk_size_bytes : ℤ

pub record ExternalCapsuleArtifact : Type 0 where
  pub artifact_id : String
  pub name : String
  pub mime_type : String
  pub uri : String
  pub sha256 : String
  pub size_bytes : ℤ
  pub metadata : Fields

-- The columns of a row that a part fills.
pub record Part : Type 0 where
  pub artifact_id : String
  pub artifact_name : String
  pub mime_type : String
  pub artifact_sha256 : String
  pub artifact_size_raw : ℕ
  pub artifact_part_index : ℕ
  pub artifact_part_count : ℕ
  pub artifact_offset : ℕ
  pub artifact_part_sha256 : Option String
  pub metadata_json : String
  pub payload : Option (List ℕ)

-- `d[key] = v`: in place if the key is there.
unfoldable pub assign : String → Json → Fields → Fields
assign key v end = field key v end
assign key v (field k w rest) =
    if str_eq k key then field k v rest else field k w (assign key v rest)

-- `{**first, **second}`
unfoldable pub merge : Fields → Fields → Fields
merge first end = first
merge first (field k v rest) = merge (assign k v first) rest

-- `from_file`, of the size and the bytes that the file system reports.
unfoldable pub from_file :
    String
    → String
    → String
    → ℕ
    → List ℕ
    → Option Fields
    → ℤ
    → Result ArtifactError EmbeddedCapsuleArtifact
from_file artifact_id name mime_type size contents metadata chunk_size_bytes = do
  raise_if (ltb max_embedded_artifact_bytes size) too_large
  ok (record {
    artifact_id = artifact_id;
    name = name;
    mime_type = mime_type;
    payload = contents;
    metadata = elim metadata [ none ↦ end | some m ↦ m ];
    chunk_size_bytes = chunk_size_bytes;
  })

-- `max(1, (size + chunk - 1) // chunk)`
unfoldable pub part_count_of : ℕ → ℕ → ℕ
part_count_of size chunk = max 1 ((size + chunk - 1) / chunk)

unfoldable pub embedded_metadata : Fields → Fields
unfolding merge assign
embedded_metadata metadata = merge (field "location" (str "embedded") end) metadata

module _ (codec : Codec) where
  -- The part at an index, for a chunk size that has passed its check.
  unfoldable pub part_at : EmbeddedCapsuleArtifact → ℕ → ℕ → ℕ → Part
  unfolding embedded_metadata
  part_at self chunk part_count part_index =
      let offset = part_index * chunk in
      let part = take chunk (drop offset self.payload) in
      record {
        artifact_id = self.artifact_id;
        artifact_name = self.name;
        mime_type = self.mime_type;
        artifact_sha256 = codec.sha256 self.payload;
        artifact_size_raw = length self.payload;
        artifact_part_index = part_index;
        artifact_part_count = part_count;
        artifact_offset = offset;
        artifact_part_sha256 = some (codec.sha256 part);
        metadata_json = codec.dumps (Json.obj (embedded_metadata self.metadata));
        payload = some part;
      }

  -- The loop over `range(part_count)`: `n` parts are left, and the next one is `index`.
  unfoldable pub parts_from : EmbeddedCapsuleArtifact → ℕ → ℕ → ℕ → ℕ → List Part
  parts_from self chunk part_count index zero = []
  parts_from self chunk part_count index (suc n) =
      part_at self chunk part_count index ∷ parts_from self chunk part_count (suc index) n

  unfoldable pub iter_parts : EmbeddedCapsuleArtifact → Result ArtifactError (List Part)
  unfolding part_count_of parts_from part_at
  iter_parts self = do
    raise_if (is_empty self.artifact_id || is_empty self.name || is_empty self.mime_type)
        empty_identity
    raise_if (ltb max_embedded_artifact_bytes (length self.payload)) too_large
    raise_if (leb_ℤ self.chunk_size_bytes 0) bad_chunk_size
    let chunk = to_ℕ self.chunk_size_bytes
    let part_count = part_count_of (length self.payload) chunk
    ok (parts_from self chunk part_count 0 part_count)

  unfoldable pub as_part : ExternalCapsuleArtifact → Result ArtifactError Part
  unfolding merge assign
  as_part self = do
    raise_if
        (is_empty self.artifact_id
          || is_empty self.name
          || is_empty self.mime_type
          || is_empty self.uri
          || is_empty self.sha256)
        empty_identity
    ensure (length (codes self.sha256) == 64) bad_sha256_length
    ensure (codec.reads_hex self.sha256) bad_sha256
    raise_if (is_negative self.size_bytes) negative_size
    let location = field "location" (str "external") (field "uri" (str self.uri) end)
    ok (record {
      artifact_id = self.artifact_id;
      artifact_name = self.name;
      mime_type = self.mime_type;
      artifact_sha256 = codec.lower self.sha256;
      artifact_size_raw = to_ℕ self.size_bytes;
      artifact_part_index = 0;
      artifact_part_count = 1;
      artifact_offset = 0;
      artifact_part_sha256 = none;
      metadata_json = codec.dumps (Json.obj (merge location self.metadata));
      payload = none;
    })

pub data CapsuleArtifact : Type 0 where
  embedded : EmbeddedCapsuleArtifact → CapsuleArtifact
  external : ExternalCapsuleArtifact → CapsuleArtifact

unfoldable pub iter_artifact_parts : Codec → CapsuleArtifact → Result ArtifactError (List Part)
iter_artifact_parts codec (embedded artifact) = iter_parts codec artifact
iter_artifact_parts codec (external artifact) = do part ← as_part codec artifact; ok (part ∷ [])
