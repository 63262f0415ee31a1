-- ===== src/Sdk/Encoder.antt =====
-- png-collection-encoder.ts: one palette for a collection of images, by name and in folders. Folders
-- are listed in the order in which they were made.
pub mod Growth
use web3_nft.Prelude.{
  ℕ, ◌+◌, ◌-◌, String, Bool, ◌||◌, Option, none, some, List, [], ◌∷◌, ◌++◌, map, str_eq,
  if◌then◌else◌, or_else,
}
use web3_nft.Table.{Table, lookup, insert}
use web3_nft.Sdk.Hex.{Text}
use web3_nft.Sdk.Types.{RgbaColor, Image, new_image}
use web3_nft.Sdk.Palette.{Colors}
use web3_nft.Sdk.Image.{to_rle}

pub record PngImage : Type 0 where
  pub width : ℕ
  pub height : ℕ
  pub rgba_at : ℕ → ℕ → RgbaColor

pub record PngCollectionEncoder : Type 0 where
  pub colors : Colors
  pub images : Table Text
  pub folders : Table (List String)

-- The palette begins with `transparent`, an empty text.
abbrev pub new_encoder : PngCollectionEncoder
new_encoder = record { colors = ([], 0) ∷ []; images = []; folders = [] }

-- `if (folder) (folders[folder] ||= []).push(name)`
unfoldable pub add_to_folder : String → Option String → Table (List String) → Table (List String)
add_to_folder name none folders = folders
add_to_folder name (some folder) folders =
    if str_eq folder ""
    then folders
    else insert folder (or_else (lookup folder folders) [] ++ name ∷ []) folders

unfoldable pub encode_image :
    String → PngImage → Option String → PngCollectionEncoder → Option (Text × PngCollectionEncoder)
unfolding add_to_folder
encode_image name png folder encoder =
    elim (to_rle png.rgba_at (new_image png.width png.height) encoder.colors) [
      | none ↦ none
      | some (image, rle, colors) ↦ some (
        rle,
        record {
          colors = colors;
          images = insert name rle encoder.images;
          folders = add_to_folder name folder encoder.folders;
        },
      )
    ]

-- An image of a folder whose name was written before has no data.
pub record EncodedImage : Type 0 where
  pub filename : String
  pub data_text : Option Text

unfoldable pub remove : String → Table Text → Table Text
remove name [] = []
remove name ((key, data_text) ∷ images) =
    let rest = remove name images in if str_eq key name then rest else (key, data_text) ∷ rest

unfoldable pub write_folder : List String → Table Text → List EncodedImage × Table Text
unfolding remove
write_folder [] images = ([], images)
write_folder (name ∷ names) images =
    let (written, rest) = write_folder names (remove name images) in
    (record { filename = name; data_text = lookup name images } ∷ written, rest)

unfoldable pub write_folders :
    Table (List String)
    → Table Text
    → Table (List EncodedImage)
    → Table (List EncodedImage) × Table Text
unfolding write_folder
write_folders [] images written = (written, images)
write_folders ((folder, names) ∷ folders) images written =
    let (entries, rest) = write_folder names images in
    write_folders folders rest (insert folder entries written)

abbrev pub entry : String × Text → EncodedImage
entry image = record { filename = image.0; data_text = some image.1 }

-- The images that no folder has written go to "root".
unfoldable pub write_root : Table (List EncodedImage) → Table Text → Table (List EncodedImage)
write_root written [] = written
write_root written (image ∷ images) = insert "root" (map entry (image ∷ images)) written

pub format : Bool → PngCollectionEncoder → Table (List EncodedImage)
unfolding write_folders write_root
format flatten encoder =
    let (written, rest) = write_folders encoder.folders encoder.images [] in
    if flatten then write_root [] encoder.images else write_root written rest
