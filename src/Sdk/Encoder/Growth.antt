-- ===== src/Sdk/Encoder/Growth.antt =====
-- The palette of a collection only grows, so that an image that was encoded earlier keeps its colors.
use web3_nft.Prelude.{ℕ, zero, suc, ◌+◌, ◌<◌, String, ◌≡◌, sym, ap, Option, none, some}
use mathlib.Core.Path.{subst}
use web3_nft.Table.{lookup, insert, lookup-insert_self}
use web3_nft.Sdk.Hex.{Text, rgb_to_hex}
use web3_nft.Sdk.Types.{RgbaColor, Image, new_image}
use web3_nft.Sdk.Palette.{Colors, add_color, get_color}
use web3_nft.Sdk.Palette.Indices.{IsIndexed, add_color-keeps, add_color-IsIndexed}
use web3_nft.Sdk.Image.{write_rows, encode, to_rle}
use web3_nft.Sdk.Image.Loops.{row_indices}
use web3_nft.Sdk.Image.Scan.{picture, scan_rows-picture}
use web3_nft.Sdk.Encoder.{PngImage, PngCollectionEncoder, add_to_folder, encode_image}

module _ (rgba_at : ℕ → ℕ → RgbaColor) where
  module _ (key : Text) (i : ℕ) where
    row_indices-keeps :
        (y n x : ℕ) (colors : Colors)
        → get_color key colors ≡ some i
        → get_color key (row_indices rgba_at y x n colors).1 ≡ some i
    unfolding row_indices
    row_indices-keeps y zero x colors h = h
    row_indices-keeps y (suc n) x colors h =
        let hex = rgb_to_hex (rgba_at x y).r (rgba_at x y).g (rgba_at x y).b in
        row_indices-keeps y n (x + 1) (add_color hex colors) (add_color-keeps hex key colors i h)

    picture-keeps :
        (width n y : ℕ) (colors : Colors)
        → get_color key colors ≡ some i
        → get_color key (picture rgba_at width y n colors).1 ≡ some i
    unfolding picture
    picture-keeps width zero y colors h = h
    picture-keeps width (suc n) y colors h =
        picture-keeps width n (y + 1) (row_indices rgba_at y 0 width colors).1
          (row_indices-keeps y width 0 colors h)

  row_indices-IsIndexed :
      (y n x : ℕ) (colors : Colors)
      → IsIndexed 0 colors
      → IsIndexed 0 (row_indices rgba_at y x n colors).1
  unfolding row_indices
  row_indices-IsIndexed y zero x colors h = h
  row_indices-IsIndexed y (suc n) x colors h =
      let hex = rgb_to_hex (rgba_at x y).r (rgba_at x y).g (rgba_at x y).b in
      row_indices-IsIndexed y n (x + 1) (add_color hex colors) (add_color-IsIndexed hex colors h)

  picture-IsIndexed :
      (width n y : ℕ) (colors : Colors)
      → IsIndexed 0 colors
      → IsIndexed 0 (picture rgba_at width y n colors).1
  unfolding picture
  picture-IsIndexed width zero y colors h = h
  picture-IsIndexed width (suc n) y colors h =
      picture-IsIndexed width n (y + 1) (row_indices rgba_at y 0 width colors).1
        (row_indices-IsIndexed y width 0 colors h)

  to_rle-picture :
      (width height : ℕ) (colors : Colors)
      → 0 < width
      → (r : Image × Text × Colors) × ((to_rle rgba_at (new_image width height) colors ≡ some r)
          × (r.2 ≡ (picture rgba_at width 0 height colors).1))
  unfolding to_rle encode
  to_rle-picture width height colors h =
      let (s, (eq, w, hh, rows, bounds, cols)) =
        scan_rows-picture rgba_at height 0 (new_image width height) colors h tt in
      let (done, text) = write_rows s.0 in
      let encoded : encode rgba_at (new_image width height) colors ≡ some (done, text, s.1) =
        ap {B = Option (Image × Text × Colors)}
          (λ o. elim o [
            | none ↦ none
            | some (i, cs) ↦ let (d, t) = write_rows i in some (d, t, cs)
          ])
          eq in
      (
        (record done { rle = some text }, text, s.1),
        (
          ap {B = Option (Image × Text × Colors)}
              (λ o. elim o [
                | none ↦ none
                | some (i, t, cs) ↦ some (record i { rle = some t }, t, cs)
              ])
              encoded,
          cols,
        ),
      )

-- From a palette where every index is the color's place, an image with a column is encoded: the text
-- is kept under its name, the palette is of this kind still, and the color `key` that was in it keeps
-- its index.
pub encode_image-grows :
    (name : String) (png : PngImage) (folder : Option String) (encoder : PngCollectionEncoder)
    (key : Text) (i : ℕ)
    → 0 < png.width
    → IsIndexed 0 encoder.colors
    → get_color key encoder.colors ≡ some i
    → (r : Text × PngCollectionEncoder) × ((encode_image name png folder encoder ≡ some r)
        × (lookup name r.1.images ≡ some r.0)
        × IsIndexed 0 r.1.colors
        × (get_color key r.1.colors ≡ some i))
unfolding encode_image
encode_image-grows name png folder encoder key i h indexed found =
    let (r, (eq, cols)) = to_rle-picture png.rgba_at png.width png.height encoder.colors h in
    (
      (
        r.1,
        record {
          colors = r.2;
          images = insert name r.1 encoder.images;
          folders = add_to_folder name folder encoder.folders;
        },
      ),
      (
        ap {B = Option (Text × PngCollectionEncoder)}
            (λ o. elim o [
              | none ↦ none
              | some (image, rle, colors) ↦ some (
                rle,
                record {
                  colors = colors;
                  images = insert name rle encoder.images;
                  folders = add_to_folder name folder encoder.folders;
                },
              )
            ])
            eq,
        lookup-insert_self name r.1 encoder.images,
        subst (IsIndexed 0) (sym cols)
            (picture-IsIndexed png.rgba_at png.width png.height 0 encoder.colors indexed),
        subst (λ cs. get_color key cs ≡ some i) (sym cols)
            (picture-keeps png.rgba_at key i png.width png.height 0 encoder.colors found),
      ),
    )
