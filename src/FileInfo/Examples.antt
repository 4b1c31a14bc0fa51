-- ===== src/FileInfo/Examples.antt =====
-- A regular file with the permissions 644.
use semestre.Base.{◌≡◌, refl, some}
use semestre.FileInfo.{regular, kind_of, rights}
use semestre.FileInfo.Rights.{mode_of, rights-mode_of}

kind_of_33188 : kind_of 33188 ≡ regular
unfolding kind_of
kind_of_33188 = refl

rights-mode_of_example : mode_of (rights 33188) ≡ some 420
rights-mode_of_example = rights-mode_of 33188
