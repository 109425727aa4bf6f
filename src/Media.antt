-- ===== src/Media.antt =====
-- go/internal/pionserver/media_engine.go: the codecs that a `media_engine` payload registers. A media
-- engine is the list of the codecs registered on it; what pion's two registrations return is an
-- argument.
mod Codecs
mod Tests
use flutter_pion_bridge.Prelude.{
  ℕ, ℤ, pos, negsuc, suc, zero, String, ◌+++◌, ◌==◌, Bool, Option, none, some, List, [], ◌∷◌, ◌++◌,
  map, elem, if◌then◌else◌,
}
use flutter_pion_bridge.Types.{Value, null, str, arr, Values, nil, cons, Fields, at}
use flutter_pion_bridge.Convert.{Floats, to_int}
use flutter_pion_bridge.Result.{Result, failed, ok, ◌then◌, checked}
use flutter_pion_bridge.Settings.{millis}

pub data CodecType : Type 0 where
  video audio : CodecType

-- pion's constants, by name.
pub data MimeType : Type 0 where
  mime_type_vp8 mime_type_vp9 mime_type_av1 mime_type_rtx mime_type_opus : MimeType

pub record Codec : Type 0 where
  pub mime : MimeType
  pub clock_rate : ℕ
  pub channels : ℕ
  pub fmtp : String
  pub feedback : List (String × String)
  pub payload_type : ℕ
  pub kind : CodecType

pub data MediaError : Type 0 where
  not_strings unknown_codec : String → MediaError
  nack_not_positive : MediaError
  refused : String → MediaError

pub record MediaPion : Type 0 where
  pub register_codec : List Codec → Codec → Option String
  pub register_interceptors : List Codec → Option ℤ → Option String

pub record VideoDef : Type 0 where
  pub mime : MimeType
  pub pt : ℕ
  pub rtx : ℕ
  pub fmtp : String
  pub apt : String

-- Every way to write a name with one of the letters at each place.
unfoldable pub prefixed : List String → List String → List String
prefixed [] tails = []
prefixed (c ∷ cs) tails = map (λ t. c +++ t) tails ++ prefixed cs tails

unfoldable pub spellings : List (List String) → List String
spellings [] = "" ∷ []
spellings (cs ∷ rest) = prefixed cs (spellings rest)

-- The strings that `strings.ToUpper` makes "VP8", "VP9" and "AV1", and those that `strings.EqualFold`
-- finds equal to "opus": `ſ` folds to `s`.
abbrev pub vp8_names : List String
vp8_names = spellings (("V" ∷ "v" ∷ []) ∷ ("P" ∷ "p" ∷ []) ∷ ("8" ∷ []) ∷ [])

abbrev pub vp9_names : List String
vp9_names = spellings (("V" ∷ "v" ∷ []) ∷ ("P" ∷ "p" ∷ []) ∷ ("9" ∷ []) ∷ [])

abbrev pub av1_names : List String
av1_names = spellings (("A" ∷ "a" ∷ []) ∷ ("V" ∷ "v" ∷ []) ∷ ("1" ∷ []) ∷ [])

abbrev pub opus_names : List String
opus_names =
    spellings (("o" ∷ "O" ∷ []) ∷ ("p" ∷ "P" ∷ []) ∷ ("u" ∷ "U" ∷ []) ∷ ("s" ∷ "S" ∷ "ſ" ∷ []) ∷ [])

unfoldable pub vp8 : VideoDef
vp8 = record { mime = mime_type_vp8; pt = 96; rtx = 97; fmtp = ""; apt = "apt=96" }

unfoldable pub vp9 : VideoDef
vp9 = record { mime = mime_type_vp9; pt = 98; rtx = 99; fmtp = "profile-id=0"; apt = "apt=98" }

unfoldable pub av1 : VideoDef
av1 = record { mime = mime_type_av1; pt = 45; rtx = 46; fmtp = ""; apt = "apt=45" }

-- `videoCodecDefs[strings.ToUpper(name)]`
unfoldable pub video_codec_def : String → Option VideoDef
video_codec_def name =
    if elem name vp8_names
    then some vp8
    else if elem name vp9_names
    then some vp9
    else if elem name av1_names
    then some av1
    else none

abbrev pub video_feedback : List (String × String)
video_feedback = ("goog-remb", "") ∷ ("ccm", "fir") ∷ ("nack", "") ∷ ("nack", "pli") ∷ []

unfoldable pub main_codec : VideoDef → Codec
main_codec def = record {
  mime = def.mime;
  clock_rate = 90000;
  channels = 0;
  fmtp = def.fmtp;
  feedback = video_feedback;
  payload_type = def.pt;
  kind = video;
}

unfoldable pub rtx_codec : VideoDef → Codec
rtx_codec def = record {
  mime = mime_type_rtx;
  clock_rate = 90000;
  channels = 0;
  fmtp = def.apt;
  feedback = [];
  payload_type = def.rtx;
  kind = video;
}

unfoldable pub opus_codec : Codec
opus_codec = record {
  mime = mime_type_opus;
  clock_rate = 48000;
  channels = 2;
  fmtp = "minptime=10;useinbandfec=1";
  feedback = [];
  payload_type = 111;
  kind = audio;
}

unfoldable pub strings : Values → Option (List String)
strings nil = some []
strings (cons (str s) vs) = elim (strings vs) [ none ↦ none | some out ↦ some (s ∷ out) ]
strings (cons v vs) = none

unfoldable pub string_list : Value → Option (List String)
string_list null = some []
string_list (arr vs) = strings vs
string_list v = none

abbrev pub named : String → Option (List String) → Result MediaError (List String)
named key none = failed (not_strings key)
named key (some names) = ok names

unfoldable pub add_codec : MediaPion → Codec → List Codec → Result MediaError (List Codec)
add_codec pion c m = checked refused (pion.register_codec m c) (m ++ c ∷ [])

unfoldable pub add_video : MediaPion → List String → List Codec → Result MediaError (List Codec)
add_video pion [] m = ok m
add_video pion (name ∷ names) m = elim (video_codec_def name) [
  | none ↦ failed (unknown_codec name)
  | some def ↦
      add_codec pion (main_codec def) m
      then add_codec pion (rtx_codec def)
      then add_video pion names
]

unfoldable pub add_audio : MediaPion → List String → List Codec → Result MediaError (List Codec)
add_audio pion [] m = ok m
add_audio pion (name ∷ names) m =
    let rest = add_codec pion opus_codec m then add_audio pion names in
    if elem name opus_names then rest else failed (unknown_codec name)

-- The period of the NACK generator, where one is given.
unfoldable pub nack_interval : Option ℤ → Result MediaError (Option ℤ)
nack_interval none = ok none
nack_interval (some (pos (suc n))) = ok (some (millis (pos (suc n))))
nack_interval (some ms) = failed nack_not_positive

-- The media engine, with the options of the interceptors registered beside it.
unfoldable pub build_media_engine :
    Floats → MediaPion → Fields → Result MediaError (List Codec × Option ℤ)
build_media_engine fl pion cfg =
    named "video_codecs" (string_list (at cfg "video_codecs")) then λ names.
    add_video pion names [] then λ m.
    named "audio_codecs" (string_list (at cfg "audio_codecs")) then λ voices.
    add_audio pion voices m then λ m'.
    nack_interval (to_int fl (at cfg "nack_interval_ms")) then λ period.
    checked refused (pion.register_interceptors m' period) (m', period)
