-- ===== src/Meta/Media/Keys.antt =====
-- The keys of images, PDF, audio and video are not the system's.
use tinydm.Prelude.{ℕ, refl, String, ◌&&◌, Option, none, some, List, [], ◌∷◌, ltb, ◌==◌}
use tinydm.Meta.Keys.{
  NoneReserved, when_found-NoneReserved, if-NoneReserved, put-NoneReserved, put_some-NoneReserved,
  put_nonempty-NoneReserved, put_positive-NoneReserved,
}
use tinydm.Strconv.{itoa}
use tinydm.Prelude.Texts.{trim_space}
use tinydm.Meta.Defs.{Props, Reader, Decoders, Exif, Image, Pdf}
use tinydm.Meta.Media.{
  put_position, extract_exif, image_props, extract_image, version_props, up_to_end, after_mark,
  pdf_props, extract_pdf, extract_audio, extract_video, duration_props, size_props, Video, on_boxes,
  no_video,
}

module _ (props : Props) (h : NoneReserved props) where
  put_position-NoneReserved : (o : Option (String × String)) → NoneReserved (put_position o props)
  unfolding put_position
  put_position-NoneReserved none = h
  put_position-NoneReserved (some (lat, lon)) =
      put-NoneReserved "image.gps_lon" refl lon _
        (put-NoneReserved "image.gps_lat" refl lat props h)

  version_props-NoneReserved :
      (text : List ℕ → String) (bytes : List ℕ) → NoneReserved (version_props text bytes props)
  unfolding version_props
  version_props-NoneReserved text [] = h
  version_props-NoneReserved text (b ∷ bytes) = put-NoneReserved "pdf.version" refl _ props h

  pdf_props-NoneReserved : (o : Option Pdf) → NoneReserved (pdf_props o props)
  unfolding pdf_props
  pdf_props-NoneReserved none = h
  pdf_props-NoneReserved (some ctx) = put_nonempty-NoneReserved "pdf.author" refl _ _ (
      put_nonempty-NoneReserved "pdf.title" refl _ _
        (put_positive-NoneReserved "pdf.pages" refl _ props h))

  image_props-NoneReserved : (cfg : Image) → NoneReserved (image_props cfg props)
  unfolding image_props
  image_props-NoneReserved cfg =
      put-NoneReserved "image.format" refl _ _
        (put-NoneReserved "image.height" refl _ _ (put-NoneReserved "image.width" refl _ props h))

  duration_props-NoneReserved : (v : Video) → NoneReserved (duration_props v props)
  unfolding duration_props
  duration_props-NoneReserved v =
      if-NoneReserved (ltb 0 v.time_scale && ltb 0 v.duration_units) _ props
        (put-NoneReserved "video.duration_s" refl _ props h) h

  size_props-NoneReserved : (v : Video) → NoneReserved (size_props v props)
  unfolding size_props
  size_props-NoneReserved v =
      if-NoneReserved (ltb 0 v.width) _ props
        (put-NoneReserved "video.height" refl _ _ (put-NoneReserved "video.width" refl _ props h)) h

module _ (props : Props) (h : NoneReserved props) where
  extract_exif-NoneReserved : (o : Option Exif) → NoneReserved (extract_exif o props)
  unfolding extract_exif
  extract_exif-NoneReserved none = h
  extract_exif-NoneReserved (some x) =
      put_position-NoneReserved _
        (put_some-NoneReserved "image.orientation" refl itoa x.orientation _ (
          put_some-NoneReserved "image.datetime" refl (λ t. t) x.datetime _
            (put_some-NoneReserved "image.model" refl trim_space x.model _
              (put_some-NoneReserved "image.make" refl trim_space x.make props h))))
        x.lat_long

module _ (d : Decoders) (r : Reader) (props : Props) (h : NoneReserved props) where
  pub extract_image-NoneReserved : (ct : String) → NoneReserved (extract_image d ct r props)
  unfolding extract_image
  extract_image-NoneReserved ct = when_found-NoneReserved r.read_all _ _ h λ bytes.
      when_found-NoneReserved (d.decode_config bytes) _ _ h λ cfg.
        let found = image_props-NoneReserved props h cfg in
        if-NoneReserved (ct == "image/jpeg") _ _ (extract_exif-NoneReserved _ found (d.exif bytes))
          found

  pub extract_pdf-NoneReserved : NoneReserved (extract_pdf d r props)
  unfolding extract_pdf
  extract_pdf-NoneReserved =
      let found = version_props-NoneReserved props h d.text (up_to_end (after_mark (r.read 16))) in
      if-NoneReserved r.seek_start _ _ (pdf_props-NoneReserved _ found (d.pdf r)) found

  pub extract_audio-NoneReserved : NoneReserved (extract_audio d r props)
  unfolding extract_audio
  extract_audio-NoneReserved = when_found-NoneReserved (d.tags r) _ _ h λ m.
      put-NoneReserved "audio.format" refl m.format _ (
        put_positive-NoneReserved "audio.year" refl m.year _ (
          put_nonempty-NoneReserved "audio.album" refl m.album _ (
            put_nonempty-NoneReserved "audio.artist" refl m.artist _
              (put_nonempty-NoneReserved "audio.title" refl m.title props h))))

  pub extract_video-NoneReserved : NoneReserved (extract_video d r props)
  unfolding extract_video
  extract_video-NoneReserved = when_found-NoneReserved (d.boxes r) _ _ h λ boxes.
      let v = on_boxes boxes no_video in
      size_props-NoneReserved _ (duration_props-NoneReserved props h v) v
